-- ===== src/Reduction/Handler.antt =====
-- pkg/core/consensus/reduction/event.go and handler.go: how a vote is signed, and how the handler looks
-- into it and verifies it. An error is `none` or `false`.
pub mod Accepted
use dusk_blockchain.Base.{
  ℕ, ◌^◌, ◌<◌, ◌≡◌, refl, ap, ◌∙◌, arith, Bool, true, false, List, [], ◌∷◌, ◌++◌, Option, none,
  some, length,
}
use dusk_blockchain.Encoding.Buffer.{Bytes, M, Outcome, ok, err, equal_refl}
use dusk_blockchain.Encoding.Codec.{RoundTrips}
use dusk_blockchain.Encoding.MiscData.{write_256}
use dusk_blockchain.Crypto.Bls.{
  Curve, Signature, sign, compress, decompress, new_apk, verify, verify_points, aggregate_apk,
  aggregate_rest,
}
use dusk_blockchain.Crypto.Bls.Aggregation.{Bilinear, key_of, co_sign, co_sign-verifies}
use dusk_blockchain.Consensus.Header.{
  Header, IsWellSized, marshal_signable_vote, unmarshal_signable_vote, signable_vote-RoundTrips,
}
use dusk_blockchain.Consensus.Keys.{
  Ed25519, Keys, IsKeyPair, Compresses, verify_bls_signature, validate, write_signed,
  validate-write_signed,
}
use dusk_blockchain.Reduction.Event.{
  Reduction, IsVote, empty_header, new, deserialize, unmarshal_reduction, marshal_reduction,
  reduction-RoundTrips,
}

unfoldable pub extract_header : Reduction → Header
extract_header ev = record empty_header { round = ev.header.round; step = ev.header.step }

unfoldable pub extract_identifier : Reduction → M (Unit {0})
extract_identifier ev = write_256 ev.header.block_hash

module _ (c : Curve) where
  unfoldable pub verify_vote : Reduction → Bool
  verify_vote ev = elim (marshal_signable_vote ev.header []) [
    | err e info ↦ false
    | ok u info ↦ verify_bls_signature c ev.header.pub_key_bls info ev.signed_hash
  ]

  unfoldable pub bls_sign : Keys c → Reduction → Option Reduction
  bls_sign keys ev = elim (marshal_signable_vote ev.header []) [
    | err e buf ↦ none
    | ok u buf ↦ some (record {
      header = record ev.header { pub_key_bls = keys.bls_pub_key_bytes };
      signed_hash = compress c (sign c keys.bls_secret_key keys.bls_pub_key buf);
    })
  ]

  -- The vote as it was signed, in a buffer.
  unfoldable pub sign_marshalled : Ed25519 → Keys c → Reduction → Option Bytes
  sign_marshalled ed keys e = elim (marshal_reduction e []) [
    | err e outbuf ↦ none
    | ok u outbuf ↦ elim (write_signed ed keys outbuf []) [
      | err e signed ↦ none
      | ok u signed ↦ some signed
    ]
  ]

  unfoldable pub sign_vote : Ed25519 → Keys c → Reduction → Option Bytes
  unfolding sign_marshalled
  sign_vote ed keys e = elim (bls_sign keys e) [
    | none ↦ none
    | some signed ↦ sign_marshalled ed keys signed
  ]

  -- SignBuffer: the vote in the buffer is replaced by the signed one.
  unfoldable pub sign_buffer : Ed25519 → Keys c → Bytes → Option Bytes
  unfolding new
  sign_buffer ed keys buf = elim (unmarshal_signable_vote new.header buf) [
    | err e rest ↦ none
    | ok h rest ↦ sign_vote ed keys (record { header = h; signed_hash = [] })
  ]
