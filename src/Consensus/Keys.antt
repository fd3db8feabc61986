-- ===== src/Consensus/Keys.antt =====
-- pkg/core/consensus/user/keys.go, msg/validation.go and eventprocessor.go: the keys of a node, and the
-- checks of the two signatures of a message. The ed25519 library is a parameter.
use dusk_blockchain.Base.{
  ◌^◌, ◌≤◌, ◌≡◌, arith, ◌==◌, refl, [], ◌++◌, Bool, true, false, if◌then◌else◌, Option, none, some,
  length,
}
use dusk_blockchain.Encoding.Buffer.{Bytes, M, ok, err, ◌>>=◌, ◌>>◌, pure, write, >>-ok}
use dusk_blockchain.Encoding.Codec.{RoundTrips, RoundTrips-then, RoundTrips-bind}
use dusk_blockchain.Encoding.MiscData.{
  read_256, read_512, write_256, write_512, read_256-RoundTrips, read_512-RoundTrips,
}
use dusk_blockchain.Crypto.Bls.{
  Curve, SecretKey, PublicKey, Signature, unmarshal_signature, compress, unmarshal_pk, decompress,
  new_apk, verify,
}
use dusk_blockchain.Crypto.Bls.Aggregation.{key_of}

pub record Ed25519 : Type 0 where
  pub sign : Bytes → Bytes → Bytes
  pub verify : Bytes → Bytes → Bytes → Bool

module _ (c : Curve) where
  pub record Keys : Type 0 where
    pub bls_pub_key : PublicKey c
    pub bls_pub_key_bytes : Bytes
    pub bls_secret_key : SecretKey
    pub ed_pub_key_bytes : Bytes
    pub ed_secret_key : Bytes

  unfoldable pub verify_bls_signature : Bytes → Bytes → Bytes → Bool
  verify_bls_signature pub_key_bytes message signature = elim (unmarshal_pk c pub_key_bytes) [
    | none ↦ false
    | some pk ↦ elim (decompress c signature) [
      | none ↦ false
      | some sig ↦ verify c (new_apk c pk) message sig
    ]
  ]

-- The signature and the key in front of a signed message.
unfoldable pub read_signature : M (Bytes × Bytes)
read_signature = do sig ← read_512; key ← read_256; pure (sig, key)

-- Validator.Process: the rest of the buffer when the signature in front of it is right.
unfoldable pub validate : Ed25519 → Bytes → Option Bytes
unfolding read_signature
validate ed buf = elim (read_signature buf) [
  | err e rest ↦ none
  | ok (sig, key) signed ↦ if ed.verify key signed sig then some signed else none
]

write_signature : Bytes → Bytes → M (Unit {0})
write_signature sig key = write_512 sig >> write_256 key

-- The ed25519 signature and its key before what is signed, as both kinds of votes are sent.
unfoldable pub write_signed : {c : Curve} → Ed25519 → Keys c → Bytes → M (Unit {0})
unfolding write_signature
write_signed ed keys body =
    write_signature (ed.sign keys.ed_secret_key body) keys.ed_pub_key_bytes >> write body

-- Keys that belong together, with the sizes that the libraries document.
pub record IsKeyPair (c : Curve) (ed : Ed25519) (keys : Keys c) : Type 0 where
  pub matches : keys.bls_pub_key ≡ key_of c keys.bls_secret_key
  pub unmarshals : unmarshal_pk c keys.bls_pub_key_bytes ≡ some keys.bls_pub_key
  pub key_size : length keys.bls_pub_key_bytes ≤ 2 ^ 48
  pub ed_key_size : length keys.ed_pub_key_bytes ≡ 32
  pub ed_size : (body : Bytes) → length (ed.sign keys.ed_secret_key body) ≡ 64
  pub ed_verifies :
      (body : Bytes) → ed.verify keys.ed_pub_key_bytes body (ed.sign keys.ed_secret_key body) ≡ true

-- Compressed points are 33 bytes, and are decompressed to what they were.
pub record Compresses (c : Curve) : Type 0 where
  pub size : (p : c.G1) → length (c.compress1 p) ≡ 33
  pub decompresses : (p : c.G1) → c.decompress1 (c.compress1 p) ≡ some p

signature-RoundTrips :
    (sig key : Bytes)
    → length sig ≡ 64
    → length key ≡ 32
    → RoundTrips (write_signature sig key) read_signature (sig, key)
unfolding write_signature read_signature
signature-RoundTrips sig key hs hk =
    RoundTrips-then (read_512-RoundTrips sig hs) (λ s. read_256 >>= λ k. pure (s, k))
      (RoundTrips-bind (read_256-RoundTrips key hk) (λ k. (sig, k)) refl)

-- What is sent signed is validated, and the body is what is left.
pub validate-write_signed :
    {c : Curve} (ed : Ed25519) (keys : Keys c) (body : Bytes)
    → IsKeyPair c ed keys
    → (out : Bytes) × (write_signed ed keys body [] ≡ ok tt out) × (validate ed out ≡ some body)
unfolding write_signed validate write
validate-write_signed ed keys body k =
    let sig = ed.sign keys.ed_secret_key body in
    let both = signature-RoundTrips sig keys.ed_pub_key_bytes (k.ed_size body) k.ed_key_size in
    (
      both.bytes ++ body,
      >>-ok (write_signature sig keys.ed_pub_key_bytes) (write body) (both.writes []),
      rw (validate, both.reads body, k.ed_verifies body),
    )

-- A signature that was compressed is unmarshalled, since it is known by its 33 bytes.
pub unmarshal_signature-compress :
    (c : Curve) (small : Compresses c) (sig : Signature c)
    → unmarshal_signature c (compress c sig) ≡ some sig
unfolding unmarshal_signature compress
unmarshal_signature-compress c small sig =
    let long : (length (c.compress1 sig.e) == 33) ≡ true =
      let n = small.size sig.e in ground arith in
    rw (long, small.decompresses sig.e)
