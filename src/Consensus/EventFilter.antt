-- ===== src/Consensus/EventFilter.antt =====
-- pkg/core/consensus/eventfilter.go: events of the current point in the consensus go to the
-- accumulator, later ones wait in the queue, and earlier ones are dropped.
pub mod Routing
use dusk_blockchain.Base.{
  ℕ, ◌+◌, ◌-◌, ◌%◌, ◌^◌, Bool, true, false, ◌&&◌, ◌||◌, not, if◌then◌else◌, List, [], ◌∷◌, Option,
  none, some,
}
use dusk_blockchain.Encoding.Buffer.{Bytes}
use dusk_blockchain.Consensus.EventQueue.{
  EventQueue, new_event_queue, put_event, get_events, flush, clear,
}
use dusk_blockchain.Consensus.State.{State, update, cmp, is_negative, is_zero}
use dusk_blockchain.Consensus.Accumulator.{Handler, Accumulator, new_accumulator, process}

pub record EventFilter (E : Type 0) : Type 0 where
  pub queue : EventQueue E
  pub state : State
  pub accumulator : Accumulator E
  pub check_step : Bool

module _ {E : Type 0} where
  unfoldable pub is_early : EventFilter E → ℕ → ℕ → Bool
  is_early f round_diff step_diff =
      let early_round = is_negative round_diff in
      if not f.check_step
      then early_round
      else early_round || (is_zero round_diff && is_negative step_diff)

  unfoldable pub is_relevant : EventFilter E → ℕ → ℕ → Bool
  is_relevant f round_diff step_diff =
      if not f.check_step then is_zero round_diff else is_zero round_diff && is_zero step_diff

  module _ (h : Handler E) where
    -- An event that was deserialised.
    unfoldable pub collect_event : EventFilter E → E → EventFilter E
    collect_event f ev =
        let (round_diff, step_diff) = cmp f.state (h.round_of ev) (h.step_of ev) in
        if is_early f round_diff step_diff
        then record f { queue = put_event f.queue (h.round_of ev) (h.step_of ev) ev }
        else if is_relevant f round_diff step_diff
        then record f { accumulator = process h f.accumulator ev }
        else f

    -- The filter after the call, and whether the call returned without an error.
    unfoldable pub collect : (Bytes → Option E) → EventFilter E → Bytes → EventFilter E × Bool
    collect deserialize f buffer = elim (deserialize buffer) [
      | none ↦ (f, false)
      | some ev ↦ (collect_event f ev, true)
    ]

    unfoldable pub process_all : Accumulator E → List E → Accumulator E
    process_all a [] = a
    process_all a (ev ∷ evs) = process_all (process h a ev) evs

    unfoldable pub flush_queue : EventFilter E → EventFilter E
    flush_queue f =
        let (queue, queued) =
          if f.check_step
          then get_events f.queue f.state.round f.state.step
          else flush f.queue f.state.round in
        record f { queue = queue; accumulator = process_all f.accumulator queued }

  -- `round - 1` is a uint64.
  unfoldable pub update_round : EventFilter E → ℕ → EventFilter E
  update_round f round = record f {
    state = update f.state round;
    accumulator = new_accumulator;
    queue = clear f.queue ((round + 2 ^ 64 - 1) % 2 ^ 64);
  }

  unfoldable pub reset_accumulator : EventFilter E → EventFilter E
  reset_accumulator f = record f { accumulator = new_accumulator }
