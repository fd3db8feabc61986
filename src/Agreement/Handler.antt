-- ===== src/Agreement/Handler.antt =====
-- pkg/core/consensus/agreement/handler.go: votes are aggregated to an agreement, and an agreement is
-- verified by the committee that its bits stand for. What the committee is asked is an interface, which
-- the Extractor fills.
pub mod Tally
pub mod Agreed
use dusk_blockchain.Base.{
  ℕ, zero, suc, ◌+◌, ◌-◌, ◌*◌, ◌%◌, Bool, true, false, ◌==◌, ltb, if◌then◌else◌, List, [], ◌∷◌,
  Option, none, some, length, set, replicate,
}
use dusk_blockchain.Base.Assoc.{nat_key, lookup, insert}
use dusk_blockchain.Encoding.Buffer.{Bytes, M, Outcome, ok, err}
use dusk_blockchain.Encoding.Integers.{write_uint8}
use dusk_blockchain.SortedSet.{Set, set_bytes}
use dusk_blockchain.SortedSet
use dusk_blockchain.Crypto.Bls.{
  Curve, PublicKey, Apk, Signature, Verdict, verified, refused, panics, unmarshal_pk, new_apk,
  apk_aggregate, verify,
}
use dusk_blockchain.Consensus.Header.{Header, marshal_signable_vote, sender}
use dusk_blockchain.Consensus.Keys.{Ed25519, Keys, write_signed}
use dusk_blockchain.Committee.Sortition.{minimal_bytes}
use dusk_blockchain.Reduction.Event.{Reduction, empty_header}
use dusk_blockchain.Agreement.Event.{
  StepVotes, Slot, Agreement, empty_slots, new_agreement, add_vote, sign_agreement,
  marshal_agreement,
}

-- What the handler calls of committee.Foldable.
pub record Foldable : Type 0 where
  pub quorum : ℕ → ℕ
  pub pack : Set → ℕ → ℕ → ℕ
  pub unpack : ℕ → ℕ → ℕ → Set

-- `uint8(int(ev.Step*2) + (i - 1))`
unfoldable pub slot_step : ℕ → ℕ → ℕ
slot_step step i = (step * 2 % 256 + i + 255) % 256

module _ (c : Curve) where
  unfoldable pub extract_header : Agreement c → Header
  extract_header ev = record empty_header { round = ev.header.round; step = ev.header.step }

  unfoldable pub extract_identifier : Agreement c → M (Unit {0})
  extract_identifier ev = write_uint8 ev.header.step

  -- The loop of ReconstructApk after the first key.
  unfoldable pub reconstruct_rest : Apk c → Set → Option (Apk c)
  reconstruct_rest apk [] = some apk
  reconstruct_rest apk (ipk ∷ more) = elim (unmarshal_pk c (minimal_bytes ipk)) [
    | none ↦ none
    | some pk ↦ reconstruct_rest (apk_aggregate c apk pk) more
  ]

  unfoldable pub reconstruct_apk : Set → Option (Apk c)
  reconstruct_apk [] = none
  reconstruct_apk (ipk ∷ more) = elim (unmarshal_pk c (minimal_bytes ipk)) [
    | none ↦ none
    | some pk ↦ reconstruct_rest (new_apk c pk) more
  ]

  unfoldable pub verify_signatures : ℕ → ℕ → Bytes → Apk c → Signature c → Bool
  verify_signatures round step block_hash apk sig =
      elim (marshal_signable_vote
        (record empty_header { round = round; step = step; block_hash = block_hash }) []) [
          | err e signed ↦ false
          | ok u signed ↦ verify c apk signed sig
        ]

  -- One round of the loop of Verify: how many voted, or `none` for an error.
  unfoldable pub check_votes : Foldable → Header → ℕ → StepVotes c → Option ℕ
  check_votes f ev i votes =
      let step = slot_step ev.step i in
      let subcommittee = f.unpack votes.bit_set ev.round step in
      elim (reconstruct_apk subcommittee) [
        | none ↦ none
        | some apk ↦
            if verify_signatures ev.round step ev.block_hash apk votes.signature
            then some (length subcommittee)
            else none
      ]

  -- The rounds from index `i` on, and the check of the quorum behind them.
  unfoldable pub verify_slots : Foldable → Header → ℕ → List (Slot c) → ℕ → Verdict
  verify_slots f ev i [] all_voters =
      if ltb all_voters (f.quorum ev.round) then refused else verified
  verify_slots f ev i (none ∷ rest) all_voters = panics
  verify_slots f ev i (some votes ∷ rest) all_voters = elim (check_votes f ev i votes) [
    | none ↦ refused
    | some voters ↦ verify_slots f ev (suc i) rest (all_voters + voters)
  ]

  unfoldable pub verify_agreement : Foldable → Agreement c → Verdict
  verify_agreement f ev = verify_slots f ev.header 0 ev.votes_per_step 0

  -- The votes of a step, and the keys of their senders.
  pub record Collected : Type 0 where
    pub votes : StepVotes c
    pub keys : Set

  -- The map of Aggregate, by steps.
  abbrev pub VotesMap : Type 0
  VotesMap = List (ℕ × Collected)

  unfoldable pub slot_of : Option Collected → Slot c
  slot_of none = none
  slot_of (some sv) = some sv.votes

  unfoldable pub keys_of : Option Collected → Set
  keys_of none = []
  keys_of (some sv) = sv.keys

  -- One reduction, with what the map has at its step.
  unfoldable pub collect_vote : Option Collected → Reduction → Option Collected
  collect_vote found reduction =
      elim (add_vote c (slot_of found) reduction.signed_hash (sender reduction.header)
        reduction.header.step) [
          | none ↦ none
          | some sv ↦ some (record {
            votes = sv;
            keys = (SortedSet.insert (keys_of found) (set_bytes reduction.header.pub_key_bls)).0;
          })
        ]

  unfoldable pub add_to_map : VotesMap → Reduction → Option VotesMap
  add_to_map votes reduction = elim (collect_vote (lookup reduction.header.step votes) reduction) [
    | none ↦ none
    | some sv ↦ some (insert reduction.header.step sv votes)
  ]

  unfoldable pub add_all : VotesMap → List Reduction → Option VotesMap
  add_all votes [] = some votes
  add_all votes (ev ∷ evs) = elim (add_to_map votes ev) [
    | none ↦ none
    | some more ↦ add_all more evs
  ]

  -- The loop over the map, in the order that is given.
  unfoldable pub place_votes : Foldable → ℕ → VotesMap → List (Slot c) → List (Slot c)
  place_votes f round [] slots = slots
  place_votes f round ((step, sv) ∷ more) slots =
      let packed = record sv.votes { bit_set = f.pack sv.keys round sv.votes.step } in
      place_votes f round more (set slots (if step % 2 == 0 then 1 else 0) (some packed))

  -- `order` is the one in which Go ranges over the map.
  unfoldable pub aggregate_agreement :
      Foldable → (VotesMap → VotesMap) → Header → List Reduction → Option (Agreement c)
  aggregate_agreement f order h vote_set = elim (add_all [] vote_set) [
    | none ↦ none
    | some votes ↦ some (record (new_agreement c) {
      header = h;
      votes_per_step = place_votes f h.round (order votes) (empty_slots c);
    })
  ]
