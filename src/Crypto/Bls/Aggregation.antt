-- ===== src/Crypto/Bls/Aggregation.antt =====
-- pkg/crypto/bls/bls.go: the signatures of many over one message, added up, against their keys,
-- added up, and those over distinct messages as a batch.
use dusk_blockchain.Base.{ℕ, ◌≡◌, refl, ◌∙◌, ap, true, List, [], ◌∷◌, some, map}
use dusk_blockchain.Encoding.Buffer.{Bytes, equal_refl}
use dusk_blockchain.Crypto.Bls.{
  Curve, SecretKey, PublicKey, Apk, Signature, h0, h1, pkt, sign, aggregate, aggregate_apk,
  aggregate_rest, apk_aggregate, new_apk, verify, verify_points, apk_sig_wrap, unsafe_sign,
}

-- What pairing-based cryptography asks of a curve: the pairing is linear on both sides, and the
-- factors of a point may be exchanged.
pub record Bilinear (c : Curve) : Type 0 where
  pub pair_add1 :
      (a b : c.G1) (q : c.G2) → c.pair (c.add1 a b) q ≡ c.add_t (c.pair a q) (c.pair b q)
  pub pair_add2 :
      (a : c.G1) (p q : c.G2) → c.pair a (c.add2 p q) ≡ c.add_t (c.pair a p) (c.pair a q)
  pub pair_scalar :
      (a : c.G1) (k : ℕ) (q : c.G2) → c.pair (c.scalar_mult1 a k) q ≡ c.pair a (c.scalar_mult2 q k)
  pub scalar_swap :
      (q : c.G2) (j k : ℕ)
      → c.scalar_mult2 (c.scalar_mult2 q j) k ≡ c.scalar_mult2 (c.scalar_mult2 q k) j

module _ (c : Curve) where
  -- The public key of a secret one.
  unfoldable pub key_of : SecretKey → PublicKey c
  key_of sk = record { gx = c.scalar_mult2 c.g2_base sk.x }

  -- A signature, with those of further signers of a message aggregated to it.
  unfoldable pub co_sign : Bytes → Signature c → List SecretKey → Signature c
  co_sign msg sigma [] = sigma
  co_sign msg sigma (sk ∷ sks) = co_sign msg (aggregate c sigma (sign c sk (key_of sk) msg)) sks

  module _ (laws : Bilinear c) where
    pub sign-pairs :
        (sk : SecretKey) (msg : Bytes)
        → c.pair (sign c sk (key_of sk) msg).e c.g2_base ≡ c.pair (h0 c msg) (pkt c (key_of sk))
    unfolding sign apk_sig_wrap unsafe_sign pkt key_of
    sign-pairs sk msg =
        let t = h1 c (key_of sk) in
        let h = h0 c msg in
        laws.pair_scalar (c.scalar_mult1 h sk.x) t c.g2_base
        ∙ laws.pair_scalar h sk.x (c.scalar_mult2 c.g2_base t)
        ∙ ap (c.pair h) (laws.scalar_swap c.g2_base t sk.x)

    co_sign-pairs :
        (msg : Bytes) (sks : List SecretKey) (sigma : Signature c) (apk : Apk c)
        → c.pair sigma.e c.g2_base ≡ c.pair (h0 c msg) apk.public_key.gx
        → c.pair (co_sign msg sigma sks).e c.g2_base
          ≡ c.pair (h0 c msg) (aggregate_rest c apk (map key_of sks)).public_key.gx
    unfolding co_sign aggregate_rest apk_aggregate aggregate
    co_sign-pairs msg [] sigma apk h = h
    co_sign-pairs msg (sk ∷ sks) sigma apk h =
        co_sign-pairs msg sks (aggregate c sigma (sign c sk (key_of sk) msg))
          (apk_aggregate c apk (key_of sk))
          (laws.pair_add1 sigma.e (sign c sk (key_of sk) msg).e c.g2_base
            ∙ rw (
              h,
              sign-pairs sk msg,
              laws.pair_add2 (h0 c msg) apk.public_key.gx (pkt c (key_of sk)),
            ))

    -- A signature verifies under the key of its signer.
    pub sign-verifies :
        (sk : SecretKey) (msg : Bytes)
        → verify c (new_apk c (key_of sk)) msg (sign c sk (key_of sk) msg) ≡ true
    unfolding new_apk verify verify_points
    sign-verifies sk msg =
        rw (sign-pairs sk msg) (equal_refl (c.marshal_t (c.pair (h0 c msg) (pkt c (key_of sk)))))

    -- Over a bilinear pairing, the signatures that any number of keys, at least one, make of a message,
    -- aggregated to one, verify under the aggregate of the keys.
    pub co_sign-verifies :
        (msg : Bytes) (sk : SecretKey) (sks : List SecretKey)
        → (apk : Apk c) × (aggregate_apk c (map key_of (sk ∷ sks)) ≡ some apk)
          × (verify c apk msg (co_sign msg (sign c sk (key_of sk) msg) sks) ≡ true)
    unfolding aggregate_apk new_apk verify verify_points
    co_sign-verifies msg sk sks =
        let apk = aggregate_rest c (new_apk c (key_of sk)) (map key_of sks) in
        let paired =
          co_sign-pairs msg sks (sign c sk (key_of sk) msg) (new_apk c (key_of sk))
            (sign-pairs sk msg) in
        (apk, refl, rw paired (equal_refl (c.marshal_t (c.pair (h0 c msg) apk.public_key.gx))))
