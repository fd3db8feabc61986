-- ===== src/Reduction/Reducer.antt =====
-- pkg/core/consensus/reduction/reducer.go: the two steps of a reduction. What a step fetches, the votes
-- of a quorum or nothing, is given; the candidate's verification over the RPC bus is a parameter. `none`
-- is a panic. The notices that a step change sends to its subscribers are not kept.
pub mod Published
use dusk_blockchain.Base.{
  ℕ, ◌+◌, ◌^◌, ◌%◌, Bool, true, false, not, ◌&&◌, if◌then◌else◌, List, [], ◌∷◌, ◌++◌, Option, none,
  some, replicate,
}
use dusk_blockchain.Encoding.Buffer.{Bytes, M, Outcome, ok, err, ◌>>=◌, ◌>>◌, equal}
use dusk_blockchain.Encoding.Integers.{little_endian, write_uint64, put_uint}
use dusk_blockchain.Wire.Topics.{add_topic}
use dusk_blockchain.Crypto.Bls.{Curve}
use dusk_blockchain.Consensus.Header.{Header, marshal_signable_vote}
use dusk_blockchain.Consensus.Keys.{Ed25519, Keys}
use dusk_blockchain.Consensus.State.{State, increment_step}
use dusk_blockchain.Consensus.Timer.{Timer, increase_time_out}
use dusk_blockchain.Consensus.Accumulator.{Handler}
use dusk_blockchain.Consensus.EventFilter.{EventFilter, reset_accumulator, flush_queue}
use dusk_blockchain.Reduction.Event.{Reduction, marshal_vote_set}
use dusk_blockchain.Reduction.Handler.{extract_identifier, sign_buffer}

-- What is streamed to the gossip topic, and what is published to the other components.
pub data Publication : Type 0 where
  gossip reduction_result block_regeneration : Bytes → Publication

-- The filter holds the state of the consensus, which the reducer's context shares.
pub record Reducer : Type 0 where
  pub filter : EventFilter Reduction
  pub timer : Timer
  pub stale : Bool
  pub published : List Publication

abbrev pub empty_hash : Bytes
empty_hash = replicate 32 0

-- topics.Reduction, "blockreduction"
abbrev pub reduction_topic : Bytes
reduction_topic =
    98 ∷ 108 ∷ 111 ∷ 99 ∷ 107 ∷ 114 ∷ 101 ∷ 100 ∷ 117 ∷ 99 ∷ 116 ∷ 105 ∷ 111 ∷ 110 ∷ []

unfoldable pub publish : Reducer → Publication → Reducer
publish r p = record r { published = r.published ++ (p ∷ []) }

unfoldable pub extract_hash : Option (List Reduction) → Option Bytes
extract_hash none = some empty_hash
extract_hash (some []) = none
extract_hash (some (ev ∷ evs)) = elim (extract_identifier ev []) [
  | err e hash ↦ none
  | ok u hash ↦ some hash
]

unfoldable pub is_reduction_successful : Bytes → Bytes → Bool
is_reduction_successful hash1 hash2 =
    let both_not_nil = not (equal hash1 empty_hash) && not (equal hash2 empty_hash) in
    both_not_nil && equal hash1 hash2

unfoldable pub publish_regeneration : Reducer → Reducer
publish_regeneration r =
    let state = r.filter.state in
    publish r (block_regeneration (put_uint little_endian 8 state.round ++ (state.step ∷ [])))

-- Nothing is published when a vote cannot be marshalled.
unfoldable pub send_results : Reducer → Option (List Reduction) → Reducer
send_results r none = elim (write_uint64 little_endian r.filter.state.round []) [
  | err e buf ↦ r
  | ok u buf ↦ publish r (reduction_result buf)
]
send_results r (some events) =
    elim ((write_uint64 little_endian r.filter.state.round >> marshal_vote_set events) []) [
      | err e buf ↦ r
      | ok u buf ↦ publish r (reduction_result buf)
    ]

unfoldable pub next_step : Reducer → Reducer
next_step r =
    let f = r.filter in record r { filter = record f { state = (increment_step f.state).0 } }

-- The three deferred calls, the last one first.
unfoldable pub finish : Reducer → Reducer
finish r =
    let s = next_step (publish_regeneration r) in record s { filter = reset_accumulator s.filter }

-- All votes when both steps ended with the same hash, and nothing and a longer time-out otherwise.
unfoldable pub send_outcome : Reducer → List Reduction → List Reduction → Bool → Reducer
send_outcome r events events_second_step true = send_results r (some (events ++ events_second_step))
send_outcome r events events_second_step false =
    let sent = send_results r none in record sent { timer = increase_time_out sent.timer }

abbrev pub votes_of : Option (List Reduction) → List Reduction
votes_of none = []
votes_of (some events) = events

module _ (c : Curve) (ed : Ed25519) (keys : Keys c) (h : Handler Reduction)
    (verify_candidate : Bytes → Bool) where
  unfoldable pub in_committee : Reducer → Bool
  in_committee r =
      let state = r.filter.state in h.is_member keys.bls_pub_key_bytes state.round state.step

  -- A vote that was signed, with its topic in front.
  unfoldable pub publish_signed : Reducer → Option Bytes → Reducer
  publish_signed r none = r
  publish_signed r (some signed) = publish r (gossip (add_topic signed reduction_topic))

  unfoldable pub sign_and_publish : Reducer → Outcome (Unit {0}) → Reducer
  sign_and_publish r (err e vote) = r
  sign_and_publish r (ok u vote) = publish_signed r (sign_buffer c ed keys vote)

  unfoldable pub send_reduction : Reducer → Bytes → Reducer
  send_reduction r hash =
      let state = r.filter.state in
      let vote : Header = record {
        pub_key_bls = keys.bls_pub_key_bytes;
        round = state.round;
        step = state.step;
        block_hash = hash;
      } in
      sign_and_publish r (marshal_signable_vote vote [])

  -- Up to the start of the goroutine that runs `begin`.
  unfoldable pub start_reduction : Reducer → Bytes → Reducer
  start_reduction r hash =
      let fresh = record r { stale = false } in
      if in_committee fresh then send_reduction fresh hash else fresh

  -- The vote of the second step: on the hash of the first, unless that is of a block that is not valid.
  unfoldable pub vote_again : Reducer → Bytes → Reducer
  vote_again r hash =
      if not (equal hash empty_hash) && not (verify_candidate hash)
      then send_reduction r empty_hash
      else send_reduction r hash

  -- The first result of a reducer that is not stale.
  unfoldable pub first_step : Reducer → Option (List Reduction) → Option (Reducer × Option Bytes)
  first_step r events =
      let stepped = next_step r in
      let flushed = record stepped { filter = flush_queue h (reset_accumulator stepped.filter) } in
      elim (extract_hash events) [
        | none ↦ none
        | some hash ↦
            some (if in_committee flushed then vote_again flushed hash else flushed, some hash)
      ]

  -- The hash is `none` when the reducer is stale.
  unfoldable pub handle_first_result :
      Reducer → Option (List Reduction) → Option (Reducer × Option Bytes)
  handle_first_result r events = if r.stale then some (r, none) else first_step r events

  -- The second result of a reducer that is not stale, or not any more: then the first hash may be nil,
  -- which is reached for.
  unfoldable pub second_step :
      Reducer → Option (List Reduction) → Option (List Reduction) → Option Bytes → Option Reducer
  second_step r events events_second_step hash1 = elim (extract_hash events_second_step) [
    | none ↦ none
    | some hash2 ↦ elim hash1 [
      | none ↦ none
      | some first ↦ some (
          finish (
            send_outcome r (votes_of events) (votes_of events_second_step)
              (is_reduction_successful first hash2)))
    ]
  ]

  unfoldable pub handle_second_result :
      Reducer → Option (List Reduction) → Option (List Reduction) → Option Bytes → Option Reducer
  handle_second_result r events events_second_step hash1 =
      if r.stale then some r else second_step r events events_second_step hash1

  -- Both steps, when nothing comes between them.
  unfoldable pub begin :
      Reducer → Option (List Reduction) → Option (List Reduction) → Option Reducer
  begin r events events_second_step = elim (handle_first_result r events) [
    | none ↦ none
    | some (first, hash) ↦ handle_second_result first events events_second_step hash
  ]

-- end: the results that are still to come are dropped.
unfoldable pub end_reduction : Reducer → Reducer
end_reduction r = record r { stale = true }
