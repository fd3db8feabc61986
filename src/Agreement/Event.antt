-- ===== src/Agreement/Event.antt =====
-- pkg/core/consensus/agreement/event.go: the aggregated votes of a step, the agreement that carries
-- those of two steps, and how they are read and written. A slot of VotesPerStep is `none` while nil.
pub mod Serialised
use dusk_blockchain.Base.{
  ℕ, zero, suc, ◌≡◌, refl, Bool, true, false, ◌==◌, if◌then◌else◌, List, [], ◌∷◌, Option, none,
  some, length, get_elem?, set, replicate,
}
use dusk_blockchain.Encoding.Buffer.{
  Bytes, M, Outcome, ok, err, malformed, panicked, pure, fail, ◌>>=◌, ◌>>◌,
}
use dusk_blockchain.Encoding.Codec.{write_each}
use dusk_blockchain.Encoding.Integers.{little_endian, read_uint64, write_uint64}
use dusk_blockchain.Encoding.VarInt.{read_var_int, write_var_int}
use dusk_blockchain.Encoding.VarData.{read_var_bytes, write_var_bytes}
use dusk_blockchain.Encoding.MiscData.{read_bls, write_bls}
use dusk_blockchain.Crypto.Bls.{
  Curve, Apk, Signature, unmarshal_pk, marshal_pk, new_apk, unmarshal_apk, apk_aggregate_bytes,
  aggregate_bytes, unmarshal_signature, compress, sign,
}
use dusk_blockchain.Consensus.Header.{Header, marshal, unmarshal}
use dusk_blockchain.Consensus.Keys.{Keys}
use dusk_blockchain.Reduction.Event.{empty_header}

module _ (c : Curve) where
  pub record StepVotes : Type 0 where
    pub apk : Apk c
    pub bit_set : ℕ
    pub signature : Signature c
    pub step : ℕ

  abbrev pub Slot : Type 0
  Slot = Option StepVotes

  pub record Agreement : Type 0 where
    pub header : Header
    pub signed_votes : Bytes
    pub votes_per_step : List Slot

  unfoldable pub empty_slots : List Slot
  empty_slots = none ∷ none ∷ []

  unfoldable pub new_agreement : Agreement
  unfolding empty_slots
  new_agreement = record {
    header = empty_header;
    signed_votes = replicate 33 0;
    votes_per_step = empty_slots;
  }

  -- Add while the step is 0.
  unfoldable pub first_vote : ℕ → Bytes → Bytes → ℕ → Option StepVotes
  first_vote bits signature sender step = elim (unmarshal_pk c sender) [
    | none ↦ none
    | some pk ↦ elim (unmarshal_signature c signature) [
      | none ↦ none
      | some sig ↦
          some (record { apk = new_apk c pk; bit_set = bits; signature = sig; step = step })
    ]
  ]

  -- Add otherwise.
  unfoldable pub next_vote : StepVotes → Bytes → Bytes → ℕ → Option StepVotes
  next_vote sv signature sender step =
      if step == sv.step
      then elim (apk_aggregate_bytes c sv.apk sender) [
        | none ↦ none
        | some apk ↦ elim (aggregate_bytes c sv.signature signature) [
          | none ↦ none
          | some sig ↦ some (record sv { apk = apk; signature = sig })
        ]
      ]
      else none

  -- Add on what NewStepVotes returns, `none`, or on what votes have been added to.
  unfoldable pub add_vote : Slot → Bytes → Bytes → ℕ → Option StepVotes
  unfolding first_vote next_vote
  add_vote none signature sender step = first_vote 0 signature sender step
  add_vote (some sv) signature sender step =
      if sv.step == 0
      then first_vote sv.bit_set signature sender step
      else next_vote sv signature sender step

  unfoldable pub marshal_step_votes : StepVotes → M (Unit {0})
  marshal_step_votes vote = do
    write_var_bytes (marshal_pk c vote.apk.public_key)
    write_uint64 little_endian vote.bit_set
    write_bls (compress c vote.signature)

  -- A nil pointer panics.
  unfoldable pub marshal_slot : Slot → M (Unit {0})
  unfolding marshal_step_votes
  marshal_slot none = fail panicked
  marshal_slot (some vote) = marshal_step_votes vote

  unfoldable pub marshal_votes : List Slot → M (Unit {0})
  unfolding marshal_slot
  marshal_votes votes = write_var_int (length votes) >> write_each marshal_slot votes

  -- What the library decodes, or its error.
  unfoldable pub or_malformed : {A : Type 0} → Option A → M A
  or_malformed none = fail malformed
  or_malformed (some a) = pure a

  -- UnmarshalStepVotes from the signature on.
  unfoldable pub unmarshal_signature_of : Apk c → ℕ → M StepVotes
  unfolding or_malformed
  unmarshal_signature_of apk bits = do
    signature ← read_bls
    sig ← or_malformed (unmarshal_signature c signature)
    pure (record { apk = apk; bit_set = bits; signature = sig; step = 0 })

  -- UnmarshalStepVotes from the bit set on.
  unfoldable pub unmarshal_votes_of : Apk c → M StepVotes
  unfolding unmarshal_signature_of
  unmarshal_votes_of apk = read_uint64 little_endian >>= unmarshal_signature_of apk

  unfoldable pub unmarshal_step_votes : M StepVotes
  unfolding unmarshal_votes_of or_malformed
  unmarshal_step_votes = do
    key ← read_var_bytes
    or_malformed (unmarshal_apk c key) >>= unmarshal_votes_of

  -- `(*votes)[i] = sv`
  unfoldable pub put_slot : List Slot → ℕ → StepVotes → M (List Slot)
  put_slot votes i sv = elim (get_elem? votes i) [
    | none ↦ fail panicked
    | some old ↦ pure (set votes i (some sv))
  ]

  -- The loop of UnmarshalVotes, of which `n` rounds are left, from index `i` on.
  unfoldable pub unmarshal_slots : ℕ → ℕ → List Slot → M (List Slot)
  unfolding unmarshal_step_votes put_slot
  unmarshal_slots zero i votes = pure votes
  unmarshal_slots (suc n) i votes = do
    sv ← unmarshal_step_votes
    filled ← put_slot votes i sv
    unmarshal_slots n (suc i) filled

  unfoldable pub unmarshal_votes : List Slot → M (List Slot)
  unfolding unmarshal_slots
  unmarshal_votes votes = do n ← read_var_int; unmarshal_slots n 0 votes

  unfoldable pub marshal_agreement : Agreement → M (Unit {0})
  unfolding marshal_votes
  marshal_agreement a = do
    marshal a.header
    write_bls a.signed_votes
    marshal_votes a.votes_per_step

  unfoldable pub unmarshal_agreement : Agreement → M Agreement
  unfolding unmarshal_votes empty_slots
  unmarshal_agreement a = do
    h ← unmarshal a.header
    signed ← read_bls
    votes ← unmarshal_votes empty_slots
    pure (record { header = h; signed_votes = signed; votes_per_step = votes })

  -- The error, or the panic, of MarshalVotes is `none`.
  unfoldable pub sign_agreement : Agreement → Keys c → Option Agreement
  unfolding marshal_votes
  sign_agreement a keys = elim (marshal_votes a.votes_per_step []) [
    | err e buffer ↦ none
    | ok u buffer ↦ some (record a {
      signed_votes = compress c (sign c keys.bls_secret_key keys.bls_pub_key buffer);
    })
  ]
