-- ===== src/Reduction/Reducer/Published.antt =====
-- pkg/core/consensus/reduction/reducer.go: what a reduction publishes, and the state that it leaves.
pub mod Finished
use dusk_blockchain.Base.{
  else_taken, ℕ, ◌+◌, ◌%◌, ◌^◌, ◌<◌, ◌≡◌, ◌≢◌, ◌↔◌, refl, sym, ap, ◌∙◌, subst, arith, Bool, true,
  false, not, ◌&&◌, if◌then◌else◌, Bool-cases, inl, inr, List, [], ◌∷◌, ◌++◌, append_assoc, Option,
  none, some, length, All, All-append, replicate,
}
use dusk_blockchain.Encoding.Buffer.{
  Bytes, M, Outcome, ok, err, ◌>>=◌, ◌>>◌, >>-ok, equal, equal_refl, equal→eq, eq→equal, write,
}
use dusk_blockchain.Encoding.Codec.{RoundTrips, reads_alone}
use dusk_blockchain.Encoding.Integers.{little_endian, read_uint64, write_uint64, put_uint}
use dusk_blockchain.Encoding.Integers.RoundTrip.{uint64-RoundTrips}
use dusk_blockchain.Encoding.MiscData.{write_256, write_sized, write_sized_ok}
use dusk_blockchain.Crypto.Bls.{Curve}
use dusk_blockchain.Consensus.Header.{Header, marshal_signable_vote}
use dusk_blockchain.Consensus.Keys.{Ed25519, Keys}
use dusk_blockchain.Consensus.State.{State, increment_step}
use dusk_blockchain.Consensus.Accumulator.{Handler, new_accumulator}
use dusk_blockchain.Consensus.EventFilter.{EventFilter, reset_accumulator, flush_queue}
use dusk_blockchain.Reduction.Event.{
  Reduction, IsVote, marshal_vote_set, unmarshal_vote_set, vote_set-RoundTrips,
}
use dusk_blockchain.Reduction.Handler.{extract_identifier, sign_buffer}
use dusk_blockchain.Reduction.Reducer.{
  Publication, reduction_result, block_regeneration, Reducer, empty_hash, publish, extract_hash,
  is_reduction_successful, publish_regeneration, send_results, next_step, finish, in_committee,
  send_reduction, sign_and_publish, publish_signed, vote_again, handle_first_result, first_step,
  second_step, send_outcome, votes_of, handle_second_result, begin,
}

-- What a step fetches: nothing, or votes, at least one.
abbrev pub Fetched : Option (List Reduction) → Type 0
Fetched none = Unit {0}
Fetched (some []) = ⊥
Fetched (some (ev ∷ evs)) = All IsVote (ev ∷ evs)

-- The block that the votes are for.
unfoldable pub voted : Option (List Reduction) → Bytes
voted none = empty_hash
voted (some []) = empty_hash
voted (some (ev ∷ evs)) = ev.header.block_hash

-- Both steps ended with votes for the same block.
abbrev pub Agree : Option (List Reduction) → Option (List Reduction) → Type 0
Agree first second = (voted first ≡ voted second) × (voted first ≢ empty_hash)

extract_hash-voted :
    (events : Option (List Reduction)) → Fetched events → extract_hash events ≡ some (voted events)
unfolding extract_hash voted extract_identifier write_256 write
extract_hash-voted none f = refl
extract_hash-voted (some []) f = absurd f
extract_hash-voted (some (ev ∷ evs)) (v, vs) =
    let written : write_sized 32 ev.header.block_hash [] ≡ ok tt ev.header.block_hash =
      ap (λ m. m []) (write_sized_ok 32 ev.header.block_hash v.fits.hash) in
    rw (extract_hash, extract_identifier, write_256, written)

agree_iff :
    (a b e : Bytes)
    → ((not (equal a e) && not (equal b e) && equal a b) ≡ true) ↔ ((a ≡ b) × (a ≢ e))
agree_iff a b e = (
  λ h.
      let same : equal a b ≡ true = ground arith in
      let off : equal a e ≡ false = ground arith in
      (equal→eq a b same, λ q. let on = eq→equal a e q in cc),
  λ (q, ne).
      let same : equal a b ≡ true = eq→equal a b q in
      elim (Bool-cases (equal a e)) [
        | inl on ↦ absurd (ne (equal→eq a e on))
        | inr off ↦
            let off' : equal b e ≡ false = subst (λ x. equal x e ≡ false) q off in ground arith
      ],
)

pub is_reduction_successful_iff :
    (a b : Bytes) → (is_reduction_successful a b ≡ true) ↔ ((a ≡ b) × (a ≢ empty_hash))
unfolding is_reduction_successful
is_reduction_successful_iff a b = agree_iff a b empty_hash

pub All-votes : (events : Option (List Reduction)) → Fetched events → All IsVote (votes_of events)
All-votes none f = tt
All-votes (some []) f = tt
All-votes (some (ev ∷ evs)) f = f

-- What a call leaves of a reducer that it only publishes for.
record Kept (r s : Reducer) : Type 0 where
  filter : s.filter ≡ r.filter
  stale : s.stale ≡ r.stale
  timer : s.timer ≡ r.timer

-- A result: the bytes that are published, and what a reader of the round leaves of them.
pub record Sent (r s : Reducer) (rest : Bytes) : Type 0 where
  pub body : Bytes
  pub published : s ≡ publish r (reduction_result body)
  pub reads : read_uint64 little_endian body ≡ ok r.filter.state.round rest

pub send_nothing : (r : Reducer) → r.filter.state.round < 2 ^ 64 → Sent r (send_results r none) []
unfolding send_results
send_nothing r fits =
    let t = uint64-RoundTrips little_endian r.filter.state.round fits in
    record { body = t.bytes; published = rw (send_results, t.writes []); reads = reads_alone t }

pub send_votes :
    (r : Reducer) (evs : List Reduction)
    → r.filter.state.round < 2 ^ 64
    → length evs < 2 ^ 63
    → All IsVote evs
    → (rest : Bytes) × Sent r (send_results r (some evs)) rest
      × (unmarshal_vote_set rest ≡ ok evs [])
unfolding send_results
send_votes r evs fits few all =
    let t = uint64-RoundTrips little_endian r.filter.state.round fits in
    let v = vote_set-RoundTrips evs few all in
    let written =
      >>-ok (write_uint64 little_endian r.filter.state.round) (marshal_vote_set evs) (t.writes [])
      ∙ v.writes t.bytes in
    (
      v.bytes,
      record {
        body = t.bytes ++ v.bytes;
        published = rw (send_results, written);
        reads = t.reads v.bytes;
      },
      reads_alone v,
    )

module _ (c : Curve) (ed : Ed25519) (keys : Keys c) (h : Handler Reduction)
    (verify_candidate : Bytes → Bool) where
  publish_signed-Kept :
      (r : Reducer) (signed : Option Bytes)
      → Kept r (publish_signed c ed keys h verify_candidate r signed)
  unfolding publish_signed publish
  publish_signed-Kept r none = record { filter = refl; stale = refl; timer = refl }
  publish_signed-Kept r (some signed) = record { filter = refl; stale = refl; timer = refl }

  sign_and_publish-Kept :
      (r : Reducer) (vote : Outcome (Unit {0}))
      → Kept r (sign_and_publish c ed keys h verify_candidate r vote)
  unfolding sign_and_publish
  sign_and_publish-Kept r (err e vote) = record { filter = refl; stale = refl; timer = refl }
  sign_and_publish-Kept r (ok u vote) = publish_signed-Kept r (sign_buffer c ed keys vote)

  send_reduction-Kept :
      (r : Reducer) (hash : Bytes) → Kept r (send_reduction c ed keys h verify_candidate r hash)
  unfolding send_reduction
  send_reduction-Kept r hash = sign_and_publish-Kept r (marshal_signable_vote _ [])

  vote_again-Kept :
      (r : Reducer) (hash : Bytes) → Kept r (vote_again c ed keys h verify_candidate r hash)
  unfolding vote_again
  vote_again-Kept r hash =
      elim (Bool-cases (not (equal hash empty_hash) && not (verify_candidate hash))) [
        | inl bad ↦ rw bad (send_reduction-Kept r empty_hash)
        | inr good ↦ rw good (send_reduction-Kept r hash)
      ]

  -- The reducer between the two steps.
  unfoldable pub between : (r : Reducer) (first : Option (List Reduction)) → Reducer
  between r first =
      let stepped = next_step r in
      let flushed = record stepped { filter = flush_queue h (reset_accumulator stepped.filter) } in
      if in_committee c ed keys h verify_candidate flushed
      then vote_again c ed keys h verify_candidate flushed (voted first)
      else flushed

  first_step_lem :
      (r : Reducer) (first : Option (List Reduction))
      → Fetched first
      → first_step c ed keys h verify_candidate r first ≡ some (between r first, some (voted first))
  unfolding first_step between
  first_step_lem r first f = rw (first_step, extract_hash-voted first f)

  pub handle_first_result_lem :
      (r : Reducer) (first : Option (List Reduction))
      → r.stale ≡ false
      → Fetched first
      → handle_first_result c ed keys h verify_candidate r first
        ≡ some (between r first, some (voted first))
  unfolding handle_first_result
  handle_first_result_lem r first fresh f =
      else_taken r.stale (some (r, none)) (first_step c ed keys h verify_candidate r first) fresh
      ∙ first_step_lem r first f

  pub second_step_lem :
      (r : Reducer) (first second : Option (List Reduction))
      → r.stale ≡ false
      → Fetched second
      → handle_second_result c ed keys h verify_candidate r first second (some (voted first))
        ≡ some (
            finish (
              send_outcome r
                (votes_of first)
                (votes_of second)
                (is_reduction_successful (voted first) (voted second))))
  unfolding handle_second_result second_step
  second_step_lem r first second fresh f =
      else_taken r.stale (some r)
        (second_step c ed keys h verify_candidate r first second (some (voted first))) fresh
      ∙ rw (second_step, extract_hash-voted second f)

  flushed-Kept :
      (r : Reducer) (first : Option (List Reduction))
      → Kept
          (record (next_step r) { filter = flush_queue h (reset_accumulator (next_step r).filter) })
          (between r first)
  unfolding between
  flushed-Kept r first =
      let flushed = record (next_step r) {
        filter = flush_queue h (reset_accumulator (next_step r).filter);
      } in
      elim (Bool-cases (in_committee c ed keys h verify_candidate flushed)) [
        | inl in_it ↦ rw (between, in_it) (vote_again-Kept flushed (voted first))
        | inr out ↦ rw (between, out) (record { filter = refl; stale = refl; timer = refl })
      ]

  pub between-stale :
      (r : Reducer) (first : Option (List Reduction)) → (between r first).stale ≡ r.stale
  between-stale r first = let k = flushed-Kept r first in k.stale ∙ (unfold next_step in refl)

  pub between-state :
      (r : Reducer) (first : Option (List Reduction))
      → (between r first).filter.state
        ≡ record r.filter.state { step = (r.filter.state.step + 1) % 2 ^ 8 }
  between-state r first =
      let k = flushed-Kept r first in
      ap (λ f. f.state) k.filter
      ∙ (unfold next_step increment_step flush_queue reset_accumulator in refl)

  pub between-timer :
      (r : Reducer) (first : Option (List Reduction)) → (between r first).timer ≡ r.timer
  between-timer r first = let k = flushed-Kept r first in k.timer ∙ (unfold next_step in refl)
