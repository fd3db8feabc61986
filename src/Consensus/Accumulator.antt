-- ===== src/Consensus/Accumulator.antt =====
-- pkg/core/consensus/accumulator.go: votes are queued if their sender is in the committee, verified by
-- the workers, stored by identifier, and given out once there are enough for a quorum. A channel is the
-- list of what waits in it; a send that would block is one that waits there.
pub mod Quorum
use dusk_blockchain.Base.{
  ℕ, ◌<◌, Bool, true, false, ◌||◌, not, ltb, leb, if◌then◌else◌, List, [], ◌∷◌, ◌++◌, Option, none,
  some, length,
}
use dusk_blockchain.Encoding.Buffer.{Bytes, bytes_key}
use dusk_blockchain.Consensus.AccumulatorStore.{insert_event, get, clear}

-- What the accumulator calls of its handler: AccumulatorHandler and the event's own methods.
pub record Handler (E : Type 0) : Type 0 where
  pub round_of : E → ℕ
  pub step_of : E → ℕ
  pub sender : E → Bytes
  pub equal : E → E → Bool
  pub is_member : Bytes → ℕ → ℕ → Bool
  pub quorum : ℕ → ℕ
  pub verify : E → Bool
  pub extract_identifier : E → Option Bytes

pub record Accumulator (E : Type 0) : Type 0 where
  pub store : List (Bytes × List E)
  pub verification_chan : List E
  pub event_chan : List E
  pub collected_votes : List (List E)

module _ {E : Type 0} where
  unfoldable pub new_accumulator : Accumulator E
  new_accumulator = record {
    store = [];
    verification_chan = [];
    event_chan = [];
    collected_votes = [];
  }

  module _ (h : Handler E) where
    unfoldable pub should_skip : E → Bool
    should_skip ev = not (h.is_member (h.sender ev) (h.round_of ev) (h.step_of ev))

    unfoldable pub process : Accumulator E → E → Accumulator E
    unfolding should_skip
    process a ev =
        if should_skip ev
        then a
        else record a { verification_chan = a.verification_chan ++ (ev ∷ []) }

    -- `eventChan <- ev` or the default case: the channel holds 100 events.
    send_event : Accumulator E → E → Accumulator E
    send_event a ev =
        if ltb (length a.event_chan) 100
        then record a { event_chan = a.event_chan ++ (ev ∷ []) }
        else a

    verified : Accumulator E → E → Accumulator E
    unfolding send_event
    verified a ev = if h.verify ev then send_event a ev else a

    -- One turn of a worker.
    unfoldable pub work : Accumulator E → Accumulator E
    unfolding verified
    work a = elim a.verification_chan [
      | [] ↦ a
      | ev ∷ rest ↦ verified (record a { verification_chan = rest }) ev
    ]

    -- The state is that of the shared `State`: its round and its step.
    unfoldable pub is_obsolete : Bool → ℕ → ℕ → E → Bool
    is_obsolete check_step round step ev =
        if check_step
        then (ltb (h.step_of ev) step || ltb (h.round_of ev) round)
        else ltb (h.round_of ev) round

    count_votes : Accumulator E → E → Bytes → Accumulator E
    count_votes a ev hash =
        let (store', count) = insert_event h.equal a.store ev hash in
        if leb (h.quorum (h.round_of ev)) count
        then record a {
          store = clear store';
          collected_votes = a.collected_votes ++ (get store' hash ∷ []);
        }
        else record a { store = store' }

    accumulate_event : Bool → ℕ → ℕ → Accumulator E → E → Accumulator E
    unfolding is_obsolete count_votes
    accumulate_event check_step round step a ev =
        if is_obsolete check_step round step ev
        then a
        else elim (h.extract_identifier ev) [ none ↦ a | some hash ↦ count_votes a ev hash ]

    -- One turn of `Accumulate`.
    unfoldable pub accumulate : Bool → ℕ → ℕ → Accumulator E → Accumulator E
    unfolding accumulate_event
    accumulate check_step round step a = elim a.event_chan [
      | [] ↦ a
      | ev ∷ rest ↦ accumulate_event check_step round step (record a { event_chan = rest }) ev
    ]

-- What the goroutines around an accumulator do, in any order; the round and the step are those of the
-- shared state at that moment.
pub data Action (E : Type 0) : Type 0 where
  processes : E → Action E
  works : Action E
  accumulates : ℕ → ℕ → Action E

module _ {E : Type 0} (h : Handler E) (check_step : Bool) where
  unfoldable pub act : Accumulator E → Action E → Accumulator E
  act a (processes ev) = process h a ev
  act a works = work h a
  act a (accumulates round step) = accumulate h check_step round step a

  unfoldable pub run : Accumulator E → List (Action E) → Accumulator E
  run a [] = a
  run a (x ∷ xs) = run (act a x) xs
