-- ===== src/Verifiers/Certificate.antt =====
-- pkg/core/verifiers/block.go, CheckBlockCertificate, and pkg/core/consensus/generation/certgenerator.go:
-- what the votes of an agreement become in a block, and how a block's votes are checked.
use dusk_blockchain.Base.{
  ℕ, ◌+◌, ◌*◌, ◌%◌, ◌≡◌, refl, sym, ◌∙◌, arith, inl, inr, Bool-cases, List, [], ◌∷◌, Option, none,
  some, ltb, if◌then◌else◌,
}
use mathlib.Core.Option.{some-injective}
use dusk_blockchain.Encoding.Buffer.{Bytes}
use dusk_blockchain.Crypto.Bls.{Curve, Apk, Signature, compress, unmarshal_signature, verified}
use dusk_blockchain.Consensus.Header.{Header}
use dusk_blockchain.Agreement.Event.{StepVotes, Slot, Agreement}
use dusk_blockchain.Agreement.Handler.{
  Foldable, slot_step, reconstruct_apk, verify_signatures, check_votes, verify_slots,
  verify_agreement,
}
use dusk_blockchain.Block.Certificate.{Certificate}
use dusk_blockchain.Block.Header
use dusk_blockchain.Block.Body.{Block}
use dusk_blockchain.Verifiers.Faults.{Check, bad_certificate, ◌&?◌, pass-both}

module _ (c : Curve) where
  unfoldable pub certificate_of : ℕ → StepVotes c → StepVotes c → Certificate
  certificate_of step one two = record {
    step_one_batched_sig = compress c one.signature;
    step_two_batched_sig = compress c two.signature;
    step = step;
    step_one_committee = one.bit_set;
    step_two_committee = two.bit_set;
  }

  -- `none` is the panic on votes that are not there, or on a third step.
  unfoldable pub generate_certificate : Agreement c → Option Certificate
  unfolding certificate_of
  generate_certificate ev = from_slots ev.votes_per_step
    where
      from_slots : List (Slot c) → Option Certificate
      from_slots (some one ∷ some two ∷ rest) = some (certificate_of ev.header.step one two)
      from_slots slots = none

  unfoldable pub check_for_step : Foldable → Signature c → ℕ → ℕ → ℕ → Bytes → Check
  check_for_step f batched_sig bit_set round step block_hash =
      elim (reconstruct_apk c (f.unpack bit_set round step)) [
        | none ↦ some bad_certificate
        | some apk ↦
            if verify_signatures c round step block_hash apk batched_sig
            then none
            else some bad_certificate
      ]

  -- `Step` is a uint8, and the heights zero and one are not checked.
  unfoldable pub check_signed :
      Foldable → Header.Header → Option (Signature c) → Option (Signature c) → Check
  check_signed f h none two = some bad_certificate
  check_signed f h (some one) none = some bad_certificate
  check_signed f h (some one) (some two) =
      check_for_step f one h.certificate.step_one_committee h.height
        ((h.certificate.step * 2 % 256 + 255) % 256) h.hash
      &? check_for_step f two h.certificate.step_two_committee h.height
          (h.certificate.step * 2 % 256) h.hash

  unfoldable pub check_block_certificate : Foldable → Block → Check
  check_block_certificate f blk =
      if ltb blk.header.height 2
      then none
      else check_signed f blk.header
          (unmarshal_signature c blk.header.certificate.step_one_batched_sig)
          (unmarshal_signature c blk.header.certificate.step_two_batched_sig)

  check_votes-check_for_step :
      (f : Foldable) (ev : Header) (i : ℕ) (votes : StepVotes c) (n : ℕ)
      → check_votes c f ev i votes ≡ some n
      → check_for_step f votes.signature votes.bit_set ev.round (slot_step ev.step i) ev.block_hash
        ≡ none
  unfolding check_votes check_for_step
  check_votes-check_for_step f ev i votes n h =
      split (reconstruct_apk c (f.unpack votes.bit_set ev.round (slot_step ev.step i))) refl
    where
      split :
          (o : Option (Apk c))
          → reconstruct_apk c (f.unpack votes.bit_set ev.round (slot_step ev.step i)) ≡ o
          → check_for_step f votes.signature votes.bit_set ev.round
              (slot_step ev.step i)
              ev.block_hash
            ≡ none
      split none e = absurd (cc (rw (e, check_votes) at h))
      split (some apk) e =
          elim (Bool-cases (
            verify_signatures c ev.round (slot_step ev.step i) ev.block_hash apk votes.signature)) [
              | inl good ↦ rw (e, check_for_step, good)
              | inr bad ↦ absurd (cc (rw (e, check_votes, bad) at h))
            ]

  verified-parts :
      (f : Foldable) (ev : Header) (one two : StepVotes c)
      → verify_slots c f ev 0 (some one ∷ some two ∷ []) 0 ≡ verified
      → (n : ℕ) × (m : ℕ) × (check_votes c f ev 0 one ≡ some n)
        × (check_votes c f ev 1 two ≡ some m)
  unfolding verify_slots
  verified-parts f ev one two h = first (check_votes c f ev 0 one) refl
    where
      second :
          (n : ℕ) (o : Option ℕ)
          → check_votes c f ev 1 two ≡ o
          → check_votes c f ev 0 one ≡ some n
          → (n : ℕ) × (m : ℕ) × (check_votes c f ev 0 one ≡ some n)
            × (check_votes c f ev 1 two ≡ some m)
      second n none e k = absurd (cc (rw (k, verify_slots, e) at h))
      second n (some m) e k = (n, m, k, e)

      first :
          (o : Option ℕ)
          → check_votes c f ev 0 one ≡ o
          → (n : ℕ) × (m : ℕ) × (check_votes c f ev 0 one ≡ some n)
            × (check_votes c f ev 1 two ≡ some m)
      first none e = absurd (cc (rw (e, verify_slots) at h))
      first (some n) e = second n (check_votes c f ev 1 two) refl e

  slot_steps :
      (step : ℕ)
      → (slot_step step 0 ≡ (step * 2 % 256 + 255) % 256) × (slot_step step 1 ≡ step * 2 % 256)
  unfolding slot_step
  slot_steps step = (omega arith, omega arith)

  -- A block whose certificate was generated from an agreement on its hash, in its round, that the
  -- agreement's handler verified, passes the check of its certificate, where a compressed signature
  -- has 33 bytes and decompresses to itself.
  pub generate_certificate-check :
      (f : Foldable) (ev : Agreement c) (one two : StepVotes c) (cert : Certificate) (blk : Block)
      → ((s : Signature c) → unmarshal_signature c (compress c s) ≡ some s)
      → ev.votes_per_step ≡ some one ∷ some two ∷ []
      → verify_agreement c f ev ≡ verified
      → generate_certificate ev ≡ some cert
      → blk.header.certificate ≡ cert
      → blk.header.height ≡ ev.header.round
      → blk.header.hash ≡ ev.header.block_hash
      → check_block_certificate f blk ≡ none
  unfolding verify_agreement generate_certificate check_block_certificate check_signed
      certificate_of
  generate_certificate-check f ev one two cert blk back slots good made same height hash =
      let (n, m, e, k) = verified-parts f ev.header one two (rw slots at good) in
      let first =
        rw ((slot_steps ev.header.step).0) at (check_votes-check_for_step f ev.header 0 one n e) in
      let second =
        rw ((slot_steps ev.header.step).1) at (check_votes-check_for_step f ev.header 1 two m k) in
      let e0 : blk.header.certificate ≡ certificate_of ev.header.step one two =
        same ∙ sym (some-injective _ _ (rw slots at made)) in
      elim (Bool-cases (ltb blk.header.height 2)) [
        | inl early ↦ rw early
        | inr late ↦
            rw (late, e0, back one.signature, back two.signature, height, hash)
              (pass-both _ _ first second)
      ]

  -- The quorum of the committee has no part in the check of a certificate: whatever it is, the outcome
  -- is the same.
  pub check_block_certificate_any_quorum :
      (f : Foldable) (quorum : ℕ → ℕ) (blk : Block)
      → check_block_certificate (record f { quorum = quorum }) blk ≡ check_block_certificate f blk
  unfolding check_block_certificate check_signed check_for_step
  check_block_certificate_any_quorum f quorum blk =
      signed (unmarshal_signature c blk.header.certificate.step_one_batched_sig)
        (unmarshal_signature c blk.header.certificate.step_two_batched_sig)
    where
      signed :
          (one two : Option (Signature c))
          → (if ltb blk.header.height 2
              then none
              else check_signed (record f { quorum = quorum }) blk.header one two)
            ≡ (if ltb blk.header.height 2 then none else check_signed f blk.header one two)
      signed none two = refl
      signed (some one) none = refl
      signed (some one) (some two) = refl
