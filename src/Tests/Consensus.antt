-- ===== src/Tests/Consensus.antt =====
-- The consensus stores and filters at concrete events.
use dusk_blockchain.Base.{
  ℕ, ◌≡◌, refl, arith, true, ◌==◌, ◌&&◌, if◌then◌else◌, inr, List, [], ◌∷◌, ◌++◌, All, some,
}
use dusk_blockchain.Consensus.EventQueue.{EventQueue, events, put_event, events-put_event}
use dusk_blockchain.Consensus.State.{State}
use dusk_blockchain.Consensus.Accumulator.{
  Handler, Action, processes, works, accumulates, new_accumulator, process, run,
}
use dusk_blockchain.Consensus.Accumulator.Quorum.{IsQuorum, run-IsQuorum}
use dusk_blockchain.Consensus.EventFilter.{EventFilter, collect_event, process_all, flush_queue}
use dusk_blockchain.Consensus.EventFilter.Routing.{flush_queue_delivers}

-- A vote is its sender, its round and its step, and every vote is for the same block.
abbrev Vote : Type 0
Vote = ℕ × ℕ × ℕ

abbrev voters : Handler Vote
voters = record {
  round_of = λ v. v.1;
  step_of = λ v. v.2;
  sender = λ v. v.0 ∷ [];
  equal = λ v w. v.0 == w.0;
  is_member = λ key round step. true;
  quorum = λ round. 2;
  verify = λ v. true;
  extract_identifier = λ v. some (1 ∷ []);
}

abbrev schedule : List (Action Vote)
schedule =
    processes (1, 4, 2)
    ∷ processes (2, 4, 2)
    ∷ works
    ∷ works
    ∷ accumulates 4 2
    ∷ accumulates 4 2
    ∷ []

run-IsQuorum_example :
    All (IsQuorum voters) (run voters true new_accumulator schedule).collected_votes
run-IsQuorum_example = run-IsQuorum voters true schedule

abbrev one_event : EventQueue ℕ
one_event = put_event [] 4 2 10

events-put_event_example :
    events (put_event one_event 4 2 11) 4 2
    ≡ (if 4 == 4 && 2 == 2 then events one_event 4 2 ++ (11 ∷ []) else events one_event 4 2)
events-put_event_example = events-put_event one_event 4 2 11 4 2

abbrev filter_at : ℕ → ℕ → EventFilter Vote
filter_at round step = record {
  queue = [];
  state = record { round = round; step = step; step_subscribers = 0 };
  accumulator = record {
    store = [];
    verification_chan = [];
    event_chan = [];
    collected_votes = [];
  };
  check_step = true;
}

abbrev second_step : State
second_step = record { round = 4; step = 2; step_subscribers = 0 }

abbrev waiting : EventFilter Vote
waiting = record (collect_event voters (filter_at 4 1) (1, 4, 2)) { state = second_step }

flush_queue_delivers_example :
    ((flush_queue voters waiting).accumulator
      ≡ process voters (process_all voters (filter_at 4 1).accumulator (events [] 4 2)) (1, 4, 2))
    × (events (flush_queue voters waiting).queue 4 2 ≡ [])
flush_queue_delivers_example =
    flush_queue_delivers voters (filter_at 4 1) (1, 4, 2) second_step waiting (omega arith)
      (inr (refl, refl, omega arith)) refl refl refl refl
