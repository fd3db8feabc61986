-- ===== src/Agreement/Handler/Agreed.antt =====
-- pkg/core/consensus/agreement/handler.go: the agreement that one node aggregates, verified by another.
use dusk_blockchain.Base.{
  ℕ, ◌+◌, ◌%◌, ◌<◌, ◌≤◌, ◌≡◌, ◌≢◌, ◌⊎◌, refl, sym, ap, ◌∙◌, subst, arith, Bool, true, false, ◌==◌,
  none, ltb, List, [], ◌∷◌, some, length, map, All, inl, inr,
}
use dusk_blockchain.Encoding.Buffer.{Bytes, ok}
use dusk_blockchain.SortedSet.{Set}
use dusk_blockchain.SortedSet.Search.{Increasing, has}
use dusk_blockchain.Crypto.Bls.{Curve, Apk, verified}
use dusk_blockchain.Crypto.Bls.Aggregation.{Bilinear}
use dusk_blockchain.Consensus.Header.{Header, marshal_signable_vote}
use dusk_blockchain.Consensus.Keys.{Compresses}
use dusk_blockchain.Reduction.Handler.Accepted.{vote_header}
use dusk_blockchain.Agreement.Event.{StepVotes, Agreement, empty_slots, new_agreement}
use dusk_blockchain.Agreement.Handler.{
  Foldable, VotesMap, Collected, slot_step, add_all, place_votes, aggregate_agreement,
  reconstruct_apk, verify_signatures, check_votes, verify_slots, verify_agreement,
}
use dusk_blockchain.Agreement.Handler.Tally.{Commutes, Distinct, IsVoter}
use dusk_blockchain.Agreement.Handler.Tally.Mixed.{
  Ballot, at_first, at_second, ballot_vote, CountedAt, votes_at, NewAt, laid, entry_at, entry_of,
  mixed,
}
use dusk_blockchain.Agreement.Handler.Tally.Counted.{Counted, Counted-verifies}

-- What the committee of a round and a step packs of its members' keys, it unpacks.
abbrev pub Unpacks : Foldable → ℕ → ℕ → Set → Type 0
Unpacks f round step members =
    (keys : Set)
    → Increasing keys
    → All (λ k. has members k ≡ true) keys
    → f.unpack (f.pack keys round step) round step ≡ keys

-- An order in which a map of two entries is ranged over.
abbrev pub Ranges : {c : Curve} → (VotesMap c → VotesMap c) → Type 0
Ranges {c} order =
    (a b : ℕ × Collected c) → (order (a ∷ b ∷ []) ≡ a ∷ b ∷ []) ⊎ (order (a ∷ b ∷ []) ≡ b ∷ a ∷ [])

-- The entry of a step as it is placed.
abbrev packed : {c : Curve} → Foldable → ℕ → Collected c → StepVotes c
packed f round col = record col.votes { bit_set = f.pack col.keys round col.votes.step }

place_both :
    (c : Curve) (f : Foldable) (round one two : ℕ) (a b : Collected c) (swapped : Bool)
    (order : VotesMap c → VotesMap c)
    → Ranges order
    → (one % 2 == 0) ≡ false
    → (two % 2 == 0) ≡ true
    → place_votes c f round (order (laid c one two swapped (some a) (some b))) (empty_slots c)
      ≡ some (packed f round a) ∷ some (packed f round b) ∷ []
unfolding place_votes empty_slots laid entry_at
place_both c f round one two a b false order ranges odd even = elim (ranges (one, a) (two, b)) [
  | inl e ↦ rw (e, place_votes, odd, place_votes, even) refl
  | inr e ↦ rw (e, place_votes, even, place_votes, odd) refl
]
place_both c f round one two a b true order ranges odd even = elim (ranges (two, b) (one, a)) [
  | inl e ↦ rw (e, place_votes, even, place_votes, odd) refl
  | inr e ↦ rw (e, place_votes, odd, place_votes, even) refl
]

check_packed :
    (c : Curve) (f : Foldable) (h : Header) (i : ℕ) (votes : StepVotes c) (keys : Set) (apk : Apk c)
    → f.unpack votes.bit_set h.round (slot_step h.step i) ≡ keys
    → reconstruct_apk c keys ≡ some apk
    → verify_signatures c h.round (slot_step h.step i) h.block_hash apk votes.signature ≡ true
    → check_votes c f h i votes ≡ some (length keys)
unfolding check_votes
check_packed c f h i votes keys apk u r v =
    let found : reconstruct_apk c (f.unpack votes.bit_set h.round (slot_step h.step i)) ≡ some apk =
      rw u r in
    rw (check_votes, found, v) (ap (λ ks. some (length ks)) u)

module _ (c : Curve) (laws : Bilinear c) (group : Commutes c) (small : Compresses c) (f : Foldable)
    (h : Header) where
  -- What was counted at the step of a slot passes the check of that slot.
  check-Counted :
      (i : ℕ) (members : Set) (msg : Bytes) (col : Collected c)
      → marshal_signable_vote (vote_header [] h.round (slot_step h.step i) h.block_hash) []
        ≡ ok tt msg
      → Unpacks f h.round (slot_step h.step i) members
      → Counted c laws group small h.round (slot_step h.step i) h.block_hash msg members col
      → check_votes c f h i (packed f h.round col) ≡ some (length col.keys)
  check-Counted i members msg col m unpacks k =
      let (apk, r, v) =
        Counted-verifies c laws group small h.round (slot_step h.step i) h.block_hash msg members
          col m k in
      check_packed c f h i (packed f h.round col) col.keys apk
        (subst (λ s. f.unpack (f.pack col.keys h.round s) h.round (slot_step h.step i) ≡ col.keys)
          (sym k.kept) (unpacks col.keys k.increasing k.inside))
        r v

  -- The map when all votes are collected: an entry for each step.
  record Complete (s0 s1 : ℕ) (one two : Set) (first second : Bytes) (bs : List Ballot)
      : Type 0 where
    swapped : Bool
    left : Collected c
    right : Collected c
    collected :
        add_all c [] (map (ballot_vote c h.round s0 s1 h.block_hash first second) bs)
        ≡ some (laid c s0 s1 swapped (some left) (some right))
    left_counted : Counted c laws group small h.round s0 h.block_hash first one left
    right_counted : Counted c laws group small h.round s1 h.block_hash second two right
    left_votes : length left.keys ≡ length (at_first bs)
    right_votes : length right.keys ≡ length (at_second bs)

  collect_ballots :
      (s0 s1 : ℕ) (one two : Set) (first second : Bytes) (bs : List Ballot)
      → s0 ≢ 0
      → s1 ≢ 0
      → (s0 == s1) ≡ false
      → All (IsVoter c one) (at_first bs)
      → All (IsVoter c two) (at_second bs)
      → Distinct (at_first bs)
      → Distinct (at_second bs)
      → 0 < length (at_first bs)
      → 0 < length (at_second bs)
      → Complete s0 s1 one two first second bs
  unfolding CountedAt votes_at NewAt laid entry_at
  collect_ballots s0 s1 one two first second bs started going apart iv iw dv dw some_first
        some_second =
      let k =
        mixed c laws group small h.round s0 s1 h.block_hash first second one two started going apart
          bs false none none tt tt iv iw dv dw tt tt in
      let (a, ea, ka, la) =
        entry_of c laws group small h.round s0 h.block_hash first one k.left k.left_counted
          (omega (arith, k.left_votes, some_first)) in
      let (b, eb, kb, lb) =
        entry_of c laws group small h.round s1 h.block_hash second two k.right k.right_counted
          (omega (arith, k.right_votes, some_second)) in
      record {
        swapped = k.swapped;
        left = a;
        right = b;
        collected =
            k.all_added
            ∙ ap (λ o. some (laid c s0 s1 k.swapped o k.right)) ea
            ∙ ap (λ o. some (laid c s0 s1 k.swapped (some a) o)) eb;
        left_counted = ka;
        right_counted = kb;
        left_votes = omega (arith, la, k.left_votes);
        right_votes = omega (arith, lb, k.right_votes);
      }

  -- The votes for one block that voters with different keys, members of the committees of both steps of
  -- a reduction, sign over the bytes of their step, at least one at each step and together a quorum,
  -- aggregate to an agreement, however the votes of the two steps are mixed and in whichever order the
  -- map of the steps is ranged over, and the agreement verifies. The step of the agreement lies between
  -- 1 and 127, the curve is bilinear, its target a commutative group, its points decompress, and the
  -- committees unpack what they packed.
  pub aggregate-verifies :
      (order : VotesMap c → VotesMap c) (one two : Set) (first second : Bytes) (bs : List Ballot)
      → Ranges order
      → 0 < h.step
      → h.step < 128
      → marshal_signable_vote (vote_header [] h.round (slot_step h.step 0) h.block_hash) []
        ≡ ok tt first
      → marshal_signable_vote (vote_header [] h.round (slot_step h.step 1) h.block_hash) []
        ≡ ok tt second
      → Unpacks f h.round (slot_step h.step 0) one
      → Unpacks f h.round (slot_step h.step 1) two
      → All (IsVoter c one) (at_first bs)
      → All (IsVoter c two) (at_second bs)
      → Distinct (at_first bs)
      → Distinct (at_second bs)
      → 0 < length (at_first bs)
      → 0 < length (at_second bs)
      → f.quorum h.round ≤ length (at_first bs) + length (at_second bs)
      → (a : Agreement c) × (aggregate_agreement c f order h (
            map
              (ballot_vote c h.round
                (slot_step h.step 0)
                (slot_step h.step 1)
                h.block_hash
                first
                second)
              bs)
          ≡ some a)
        × (verify_agreement c f a ≡ verified)
  unfolding aggregate_agreement verify_agreement verify_slots
  aggregate-verifies order one two first second bs ranges positive low m n uo ut iv iw dv dw
        some_first some_second quorum =
      let s0 = slot_step h.step 0 in
      let s1 = slot_step h.step 1 in
      let odd : (s0 % 2 == 0) ≡ false = unfold slot_step in ground arith in
      let even : (s1 % 2 == 0) ≡ true = unfold slot_step in ground arith in
      let started : s0 ≢ 0 = unfold slot_step in λ z. omega arith in
      let going : s1 ≢ 0 = unfold slot_step in λ z. omega arith in
      let apart : (s0 == s1) ≡ false = unfold slot_step in ground arith in
      let all =
        collect_ballots s0 s1 one two first second bs started going apart iv iw dv dw some_first
          some_second in
      let enough : ltb (0 + length all.left.keys + length all.right.keys) (f.quorum h.round)
          ≡ false =
        ground (arith, all.left_votes, all.right_votes, quorum) in
      (
        record (new_agreement c) {
          header = h;
          votes_per_step =
              some (packed f h.round all.left) ∷ some (packed f h.round all.right) ∷ [];
        },
        rw (
          aggregate_agreement,
          all.collected,
          place_both c f h.round s0 s1 all.left all.right all.swapped order ranges odd even,
        ),
        rw
            (
              verify_agreement,
              verify_slots,
              check-Counted 0 one first all.left m uo all.left_counted,
              check-Counted 1 two second all.right n ut all.right_counted,
            )
            (rw enough),
      )
