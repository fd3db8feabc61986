-- ===== src/Crypto/Bls/Batch.antt =====
-- pkg/crypto/bls/bls.go: unsafe signatures over different messages, added up by UnsafeBatch, under
-- VerifyUnsafeBatch.
use dusk_blockchain.Base.{◌≡◌, refl, sym, ap, true, List, [], ◌∷◌, some, map}
use dusk_blockchain.Encoding.Buffer.{Bytes, equal_refl}
use dusk_blockchain.Crypto.Bls.{
  Curve, SecretKey, UnsafeSignature, verified, h0, unsafe_sign, unsafe_aggregate, unsafe_rest,
  unsafe_batch, pair_all, pair_rest, verify_batch_points, verify_unsafe_batch, distinct,
}
use dusk_blockchain.Crypto.Bls.Aggregation.{Bilinear, key_of}

pub record Signer : Type 0 where
  pub secret : SecretKey
  pub message : Bytes

module _ (c : Curve) where
  unfoldable pub signature_of : Signer → UnsafeSignature c
  signature_of s = unsafe_sign c s.secret s.message

  module _ (laws : Bilinear c) where
    points : List Signer → List c.G2
    points ss = map (λ pk. pk.gx) (map (λ s. key_of c s.secret) ss)

    messages : List Signer → List Bytes
    messages ss = map (λ s. s.message) ss

    signature-pairs :
        (s : Signer)
        → c.pair (signature_of s).e c.g2_base ≡ c.pair (h0 c s.message) (key_of c s.secret).gx
    unfolding signature_of unsafe_sign key_of
    signature-pairs s = laws.pair_scalar (h0 c s.message) s.secret.x c.g2_base

    rest-pairs :
        (ss : List Signer) (sum : UnsafeSignature c) (acc : c.GT)
        → acc ≡ c.pair sum.e c.g2_base
        → pair_rest c acc (points ss) (messages ss)
          ≡ some (c.pair (unsafe_rest c sum (map signature_of ss)).e c.g2_base)
    unfolding pair_rest unsafe_rest unsafe_aggregate points messages
    rest-pairs [] sum acc h = ap some h
    rest-pairs (s ∷ ss) sum acc h =
        rest-pairs ss (unsafe_aggregate c sum (signature_of s))
          (c.add_t acc (c.pair (h0 c s.message) (key_of c s.secret).gx))
          (rw (laws.pair_add1 sum.e (signature_of s).e c.g2_base, h, signature-pairs s))

    -- Over a bilinear pairing, the unsafe signatures that any number of signers, at least one, make
    -- of messages that pass as distinct add up to a signature, which verifies as a batch under their
    -- keys.
    pub unsafe_batch-verifies :
        (s : Signer) (ss : List Signer)
        → distinct c.sum256 (map (λ t. t.message) (s ∷ ss)) ≡ true
        → (sum : UnsafeSignature c) × (unsafe_batch c (map signature_of (s ∷ ss)) ≡ some sum)
          × (verify_unsafe_batch c
                (map (λ t. key_of c t.secret) (s ∷ ss))
                (map (λ t. t.message) (s ∷ ss))
                sum
              ≡ verified)
    unfolding unsafe_batch verify_unsafe_batch verify_batch_points pair_all points messages
    unsafe_batch-verifies s ss d =
        let sum = unsafe_rest c (signature_of s) (map signature_of ss) in
        (
          sum,
          refl,
          rw (
            d,
            rest-pairs ss (signature_of s) (c.pair (h0 c s.message) (key_of c s.secret).gx)
                (sym (signature-pairs s)),
            equal_refl (c.marshal_t (c.pair sum.e c.g2_base)),
          ),
        )
