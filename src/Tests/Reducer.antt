-- ===== src/Tests/Reducer.antt =====
-- A concrete reduction of pkg/core/consensus/reduction, and time-outs.
use dusk_blockchain.Base.{◌≡◌, refl, arith, true, false, [], ◌∷◌, some}
use dusk_blockchain.Consensus.EventQueue.{new_event_queue}
use dusk_blockchain.Consensus.Accumulator.{Handler, new_accumulator}
use dusk_blockchain.Consensus.Timer.{new_timer}
use dusk_blockchain.Reduction.Event.{Reduction, reduction_equal}
use dusk_blockchain.Reduction.Handler.{verify_vote}
use dusk_blockchain.Reduction.Reducer.{Reducer, begin}
use dusk_blockchain.Reduction.Reducer.Published.Finished.{Reduced, begin-Reduced}
use dusk_blockchain.Tests.Crypto.{line}
use dusk_blockchain.Tests.Reduction.{constant, keys, vote, vote-IsVote}

abbrev handler : Handler Reduction
handler = record {
  round_of = λ e. e.header.round;
  step_of = λ e. e.header.step;
  sender = λ e. e.header.pub_key_bls;
  equal = reduction_equal;
  is_member = λ key round step. true;
  quorum = λ round. 1;
  verify = verify_vote line;
  extract_identifier = λ e. some e.header.block_hash;
}

abbrev reducer : Reducer
reducer = record {
  filter = record {
    queue = new_event_queue;
    state = record { round = 7; step = 1; step_subscribers = 0 };
    accumulator = new_accumulator;
    check_step = true;
  };
  timer = new_timer 5000000000;
  stale = false;
  published = [];
}

begin-Reduced_example :
    (r' : Reducer) × (begin line constant keys handler
        (λ hash. true)
        reducer
        (some (vote ∷ []))
        (some (vote ∷ []))
      ≡ some r')
    × Reduced reducer r' (some (vote ∷ [])) (some (vote ∷ []))
begin-Reduced_example =
    begin-Reduced line constant keys handler (λ hash. true) reducer (some (vote ∷ []))
      (some (vote ∷ [])) refl (ground arith) (vote-IsVote, tt) (vote-IsVote, tt) (ground arith)
