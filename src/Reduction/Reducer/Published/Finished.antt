-- ===== src/Reduction/Reducer/Published/Finished.antt =====
-- pkg/core/consensus/reduction/reducer.go: both steps of a reduction that nothing interrupts.
use dusk_blockchain.Base.{
  ◌+◌, ◌%◌, ◌^◌, ◌<◌, ◌≡◌, refl, ap, ◌∙◌, arith, Bool, true, false, Bool-cases, ◌⊎◌, inl, inr, List,
  [], ◌∷◌, ◌++◌, append_assoc, Option, some, length, All, All-append,
}
use dusk_blockchain.Encoding.Buffer.{Bytes, ok}
use dusk_blockchain.Encoding.Integers.{little_endian, read_uint64, put_uint}
use dusk_blockchain.Crypto.Bls.{Curve}
use dusk_blockchain.Consensus.Keys.{Ed25519, Keys}
use dusk_blockchain.Consensus.State.{State, increment_step}
use dusk_blockchain.Consensus.Timer.{increase_time_out}
use dusk_blockchain.Consensus.Accumulator.{Handler, new_accumulator}
use dusk_blockchain.Consensus.EventFilter.{reset_accumulator}
use dusk_blockchain.Reduction.Event.{Reduction, IsVote, unmarshal_vote_set}
use dusk_blockchain.Reduction.Reducer.{
  Publication, reduction_result, block_regeneration, Reducer, publish, is_reduction_successful,
  publish_regeneration, next_step, finish, send_outcome, votes_of, begin,
}
use dusk_blockchain.Reduction.Reducer.Published.{
  Fetched, voted, Agree, is_reduction_successful_iff, All-votes, send_nothing, send_votes, between,
  handle_first_result_lem, second_step_lem, between-stale, between-state, between-timer,
}

-- What the outcome of a reduction leaves of the reducer, and what it publishes.
record Answered (r s : Reducer) (events : List Reduction) (agreed : Bool) : Type 0 where
  body : Bytes
  rest : Bytes
  published : s.published ≡ r.published ++ (reduction_result body ∷ [])
  reads : read_uint64 little_endian body ≡ ok r.filter.state.round rest
  votes : agreed ≡ true → unmarshal_vote_set rest ≡ ok events []
  nothing : agreed ≡ false → rest ≡ []
  filter : s.filter ≡ r.filter
  same_timer : agreed ≡ true → s.timer ≡ r.timer
  raised_timer : agreed ≡ false → s.timer ≡ increase_time_out r.timer

send_outcome-Answered :
    (r : Reducer) (one two : List Reduction) (agreed : Bool)
    → r.filter.state.round < 2 ^ 64
    → length (one ++ two) < 2 ^ 63
    → All IsVote (one ++ two)
    → Answered r (send_outcome r one two agreed) (one ++ two) agreed
unfolding send_outcome publish
send_outcome-Answered r one two true fits few all =
    let (rest, sent, votes) = send_votes r (one ++ two) fits few all in
    record {
      body = sent.body;
      rest = rest;
      published = rw sent.published;
      reads = sent.reads;
      votes = λ h. votes;
      nothing = λ h. cc;
      filter = rw sent.published;
      same_timer = λ h. rw sent.published;
      raised_timer = λ h. cc;
    }
send_outcome-Answered r one two false fits few all =
    let sent = send_nothing r fits in
    record {
      body = sent.body;
      rest = [];
      published = rw sent.published;
      reads = sent.reads;
      votes = λ h. cc;
      nothing = λ h. refl;
      filter = rw sent.published;
      same_timer = λ h. cc;
      raised_timer = λ h. rw sent.published;
    }

-- A reducer after both steps of a reduction: its last publications are a result and a regeneration of
-- the round and its second step. The result is the round, followed by all votes when both steps agree
-- on a block and by nothing when they do not, in which case the time-out has grown. Two steps have
-- passed, and no votes are left in the accumulator.
pub record Reduced (r r' : Reducer) (first second : Option (List Reduction)) : Type 0 where
  pub before : List Publication
  pub body : Bytes
  pub rest : Bytes
  pub published :
      r'.published
      ≡ before
        ++ (reduction_result body
            ∷ block_regeneration (
                put_uint little_endian 8 r.filter.state.round
                ++ ((r.filter.state.step + 1) % 2 ^ 8 ∷ []))
            ∷ [])
  pub reads : read_uint64 little_endian body ≡ ok r.filter.state.round rest
  pub outcome :
      (Agree first second
        × (unmarshal_vote_set rest ≡ ok (votes_of first ++ votes_of second) [])
        × (r'.timer ≡ r.timer))
      ⊎ ((¬ Agree first second) × (rest ≡ []) × (r'.timer ≡ increase_time_out r.timer))
  pub state :
      r'.filter.state
      ≡ record r.filter.state { step = ((r.filter.state.step + 1) % 2 ^ 8 + 1) % 2 ^ 8 }
  pub accumulator : r'.filter.accumulator ≡ new_accumulator

finish-state :
    (s : Reducer)
    → (finish s).filter.state ≡ record s.filter.state { step = (s.filter.state.step + 1) % 2 ^ 8 }
unfolding finish next_step increment_step publish_regeneration publish reset_accumulator
finish-state s = refl

finish-published :
    (s : Reducer)
    → (finish s).published
      ≡ s.published
        ++ (block_regeneration
              (put_uint little_endian 8 s.filter.state.round ++ (s.filter.state.step ∷ []))
            ∷ [])
unfolding finish next_step increment_step publish_regeneration publish reset_accumulator
finish-published s = refl

finish-timer : (s : Reducer) → (finish s).timer ≡ s.timer
unfolding finish next_step publish_regeneration publish
finish-timer s = refl

finish-accumulator : (s : Reducer) → (finish s).filter.accumulator ≡ new_accumulator
unfolding finish next_step publish_regeneration publish reset_accumulator
finish-accumulator s = refl

module _ (c : Curve) (ed : Ed25519) (keys : Keys c) (h : Handler Reduction)
    (verify_candidate : Bytes → Bool) where
  -- Whatever a reducer that is not stale fetches in its two steps, nothing or votes whose fields fit
  -- their widths, fewer than 2 ^ 63 and at a round below 2 ^ 64, the two steps end without a panic and
  -- leave it reduced: a result with the votes is published exactly when both steps ended with votes for
  -- the same block, and otherwise one without votes.
  pub begin-Reduced :
      (r : Reducer) (first second : Option (List Reduction))
      → r.stale ≡ false
      → r.filter.state.round < 2 ^ 64
      → Fetched first
      → Fetched second
      → length (votes_of first ++ votes_of second) < 2 ^ 63
      → (r' : Reducer) × (begin c ed keys h verify_candidate r first second ≡ some r')
        × Reduced r r' first second
  unfolding begin
  begin-Reduced r first second fresh fits f g few =
      let m = between c ed keys h verify_candidate r first in
      let ms : m.filter.state ≡ record r.filter.state { step = (r.filter.state.step + 1) % 2 ^ 8 } =
        between-state c ed keys h verify_candidate r first in
      let b = is_reduction_successful (voted first) (voted second) in
      let iff = is_reduction_successful_iff (voted first) (voted second) in
      let same_round : m.filter.state.round ≡ r.filter.state.round = ap (λ s. s.round) ms in
      let all =
        All-append IsVote (votes_of first) (votes_of second) (All-votes first f)
          (All-votes second g) in
      let s = send_outcome m (votes_of first) (votes_of second) b in
      let a = send_outcome-Answered m (votes_of first) (votes_of second) b (omega arith) few all in
      let kept = between-timer c ed keys h verify_candidate r first in
      let ss : s.filter.state ≡ record r.filter.state { step = (r.filter.state.step + 1) % 2 ^ 8 } =
        ap (λ x. x.state) a.filter ∙ ms in
      (
        finish s,
        rw (begin, handle_first_result_lem c ed keys h verify_candidate r first fresh f)
            (second_step_lem c ed keys h verify_candidate m first second
              (between-stale c ed keys h verify_candidate r first ∙ fresh) g),
        record {
          before = m.published;
          body = a.body;
          rest = a.rest;
          published =
              finish-published s
              ∙ rw (a.published, ss) (append_assoc m.published (reduction_result a.body ∷ []) _);
          reads = a.reads ∙ ap (λ n. ok n a.rest) same_round;
          outcome = elim (Bool-cases b) [
            | inl on ↦ inl (iff.0 on, a.votes on, finish-timer s ∙ a.same_timer on ∙ kept)
            | inr off ↦
                let disagree : ¬ Agree first second = λ ag. let on = iff.1 ag in cc in
                inr (
                  disagree,
                  a.nothing off,
                  finish-timer s ∙ a.raised_timer off ∙ ap increase_time_out kept,
                )
          ];
          state =
              finish-state s ∙ ap {A = State} (λ x. record x { step = (x.step + 1) % 2 ^ 8 }) ss;
          accumulator = finish-accumulator s;
        },
      )
