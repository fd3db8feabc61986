-- ===== src/Consensus/EventFilter/Routing.antt =====
-- Where the event filter sends an event, and that an event which came early is delivered later.
use dusk_blockchain.Base.{
  ◌^◌, ◌<◌, ◌≡◌, ◌⊎◌, refl, ap, ◌∙◌, arith, true, ◌&&◌, ◌==◌, if◌then◌else◌, List, [], ◌∷◌, ◌++◌,
}
use dusk_blockchain.Consensus.EventQueue.{
  EventQueue, events, put_event, events-put_event, get_events, events-get_events,
}
use dusk_blockchain.Consensus.State.{State, cmp, int_diff, is_negative, is_zero}
use dusk_blockchain.Consensus.Accumulator.{Handler, Accumulator, process}
use dusk_blockchain.Consensus.EventFilter.{
  EventFilter, is_early, is_relevant, collect_event, process_all, flush_queue,
}

module _ {E : Type 0} (h : Handler E) (f : EventFilter E) (ev : E) where
  -- The event's point in the consensus lies after, at, or before the filter's; the step counts only
  -- where the filter checks it.
  abbrev pub IsLater : Type 0
  IsLater =
      (f.state.round < h.round_of ev)
      ⊎ ((f.check_step ≡ true) × (f.state.round ≡ h.round_of ev) × (f.state.step < h.step_of ev))

  abbrev pub IsCurrent : Type 0
  IsCurrent =
      (f.state.round ≡ h.round_of ev) × ((f.check_step ≡ true) → f.state.step ≡ h.step_of ev)

  abbrev pub IsPast : Type 0
  IsPast =
      (h.round_of ev < f.state.round)
      ⊎ ((f.check_step ≡ true) × (f.state.round ≡ h.round_of ev) × (h.step_of ev < f.state.step))

  -- Rounds that an int holds, and steps of a byte.
  pub record InRange : Type 0 where
    pub here : f.state.round < 2 ^ 63
    pub there : h.round_of ev < 2 ^ 63
    pub step_here : f.state.step < 256
    pub step_there : h.step_of ev < 256

  -- An event that is later waits in the queue, one that is current goes to the accumulator, and one
  -- that is past changes nothing.
  pub collect_event_routes :
      InRange
      → (IsLater
          → collect_event h f ev
            ≡ record f { queue = put_event f.queue (h.round_of ev) (h.step_of ev) ev })
        × (IsCurrent → collect_event h f ev ≡ record f { accumulator = process h f.accumulator ev })
        × (IsPast → collect_event h f ev ≡ f)
  unfolding collect_event is_early is_relevant cmp is_negative is_zero int_diff
  collect_event_routes r = (λ later. ground arith, λ current. ground arith, λ past. ground arith)

module _ {E : Type 0} (h : Handler E) where
  process_all-append :
      (a : Accumulator E) (xs ys : List E)
      → process_all h a (xs ++ ys) ≡ process_all h (process_all h a xs) ys
  unfolding process_all
  process_all-append a [] ys = refl
  process_all-append a (x ∷ xs) ys = process_all-append (process h a x) xs ys

  -- An event that came early, to a filter that checks the step, is not lost: when the shared state
  -- gets to its round and step, a flush hands it to the accumulator, behind the events that waited
  -- there already, and nothing is left waiting for that point.
  pub flush_queue_delivers :
      (f : EventFilter E) (ev : E) (now : State) (later : EventFilter E)
      → InRange h f ev
      → IsLater h f ev
      → f.check_step ≡ true
      → now.round ≡ h.round_of ev
      → now.step ≡ h.step_of ev
      → later ≡ record (collect_event h f ev) { state = now }
      → ((flush_queue h later).accumulator
          ≡ process h (process_all h f.accumulator (events f.queue now.round now.step)) ev)
        × (events (flush_queue h later).queue now.round now.step ≡ [])
  unfolding flush_queue
  flush_queue_delivers f ev now later r is_later check at_round at_step e =
      let routed = (collect_event_routes h f ev r).0 is_later in
      let e' = e ∙ ap (λ (g : EventFilter E). record g { state = now }) routed in
      rw (e', check, got.0, waited)
        (
          process_all-append f.accumulator (events f.queue now.round now.step) (ev ∷ [])
              ∙ unfold process_all in refl,
          got.1 ∙ ground arith,
        )
    where
      q' : EventQueue E
      q' = put_event f.queue (h.round_of ev) (h.step_of ev) ev

      got :
          ((get_events q' now.round now.step).1 ≡ events q' now.round now.step)
          × (events (get_events q' now.round now.step).0 now.round now.step ≡ (
              if now.round == now.round && now.step == now.step
              then []
              else events q' now.round now.step))
      got = events-get_events q' now.round now.step now.round now.step

      waited : events q' now.round now.step ≡ events f.queue now.round now.step ++ (ev ∷ [])
      waited =
          events-put_event f.queue (h.round_of ev) (h.step_of ev) ev now.round now.step
          ∙ rw (at_round, at_step) (ground arith)
