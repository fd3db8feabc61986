-- ===== src/Reduction/Handler/Accepted.antt =====
-- pkg/core/consensus/reduction and eventprocessor.go: the way of a vote from its signer to the handler
-- of another node.
use dusk_blockchain.Base.{ℕ, ◌^◌, ◌<◌, ◌≡◌, refl, arith, true, [], some, length}
use dusk_blockchain.Encoding.Buffer.{Bytes, ok}
use dusk_blockchain.Encoding.Codec.{RoundTrips, reads_alone}
use dusk_blockchain.Crypto.Bls.{Curve, sign, compress, decompress}
use dusk_blockchain.Crypto.Bls.Aggregation.{Bilinear, sign-verifies}
use dusk_blockchain.Consensus.Header.{
  Header, marshal_signable_vote, unmarshal_signable_vote, signable_vote-RoundTrips,
}
use dusk_blockchain.Consensus.Keys.{
  Ed25519, Keys, IsKeyPair, Compresses, verify_bls_signature, validate, validate-write_signed,
}
use dusk_blockchain.Reduction.Event.{
  Reduction, IsVote, empty_header, new, deserialize, reduction-RoundTrips,
}
use dusk_blockchain.Reduction.Handler.{
  verify_vote, sign_buffer, sign_vote, bls_sign, sign_marshalled,
}

abbrev pub vote_header : Bytes → ℕ → ℕ → Bytes → Header
vote_header key round step hash = record {
  pub_key_bls = key;
  round = round;
  step = step;
  block_hash = hash;
}

module _ (c : Curve) (laws : Bilinear c) (small : Compresses c) (ed : Ed25519) (keys : Keys c)
    (pair : IsKeyPair c ed keys) where
  verify_bls_signature-sign :
      (msg : Bytes)
      → verify_bls_signature c keys.bls_pub_key_bytes msg
          (compress c (sign c keys.bls_secret_key keys.bls_pub_key msg))
        ≡ true
  unfolding compress decompress verify_bls_signature
  verify_bls_signature-sign msg =
      rw
        (
          verify_bls_signature,
          pair.unmarshals,
          small.decompresses (sign c keys.bls_secret_key keys.bls_pub_key msg).e,
        )
        (rw pair.matches (sign-verifies c laws keys.bls_secret_key msg))

  module _ (round step : ℕ) (hash : Bytes) (r : round < 2 ^ 64) (h : length hash ≡ 32) where
    abbrev signed : Bytes → Reduction
    signed buf = record {
      header = vote_header keys.bls_pub_key_bytes round step hash;
      signed_hash = compress c (sign c keys.bls_secret_key keys.bls_pub_key buf);
    }

    signable :
        RoundTrips
          (marshal_signable_vote (vote_header [] round step hash))
          (unmarshal_signable_vote new.header)
          (vote_header [] round step hash)
    unfolding new
    signable =
        signable_vote-RoundTrips empty_header (vote_header [] round step hash)
          (record { key = omega arith; round = r; hash = h })

    signed-IsVote : (buf : Bytes) → IsVote (signed buf)
    unfolding compress
    signed-IsVote buf = record {
      fits = record { key = pair.key_size; round = r; hash = h };
      size = small.size (sign c keys.bls_secret_key keys.bls_pub_key buf).e;
    }

    -- A vote of any round, step and block hash of 32 bytes, signed with keys that belong together, leaves
    -- its node as a message which passes the check of the ed25519 signature; the event that is read from
    -- the rest carries the signer's key with that round, step and hash, and its BLS signature verifies.
    pub sign_buffer-accepted :
        (buf out body : Bytes) × (e : Reduction) × (marshal_signable_vote
            (vote_header [] round step hash)
            []
          ≡ ok tt buf)
        × (sign_buffer c ed keys buf ≡ some out)
        × (validate ed out ≡ some body)
        × (deserialize body ≡ ok e [])
        × (e.header ≡ vote_header keys.bls_pub_key_bytes round step hash)
        × (verify_vote c e ≡ true)
    unfolding deserialize sign_buffer sign_vote bls_sign sign_marshalled verify_vote compress
        marshal_signable_vote
    sign_buffer-accepted =
        let buf = signable.bytes in
        let e = signed buf in
        let wire = reduction-RoundTrips new e (signed-IsVote buf) in
        let sent = validate-write_signed ed keys wire.bytes pair in
        (
          buf,
          sent.0,
          wire.bytes,
          e,
          signable.writes [],
          rw (
            sign_buffer,
            reads_alone signable,
            sign_vote,
            bls_sign,
            signable.writes [],
            sign_marshalled,
            wire.writes [],
            sent.1,
          ),
          sent.2,
          reads_alone wire,
          refl,
          rw (verify_vote, signable.writes []) (verify_bls_signature-sign buf),
        )
