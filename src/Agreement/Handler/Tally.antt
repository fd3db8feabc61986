-- ===== src/Agreement/Handler/Tally.antt =====
-- pkg/core/consensus/agreement/handler.go: the votes of one step that Aggregate adds up, in the order
-- in which they came, against the key that ReconstructApk adds up from the set of their senders.
pub mod Counted
pub mod Mixed
use dusk_blockchain.Base.{
  ℕ, zero, suc, ◌+◌, ◌^◌, ◌<◌, ◌≡◌, ◌≢◌, refl, sym, ap, ◌∙◌, subst, arith, Bool, true, false, ◌||◌,
  ◌==◌, List, [], ◌∷◌, ◌++◌, Option, none, some, length, take, drop, map, All, All-append,
  take-append-drop, Bool-cases, inl, inr,
}
use dusk_blockchain.Base.Assoc.{nat_key, lookup, insert}
use dusk_blockchain.Encoding.Buffer.{Bytes, Outcome, ok, err, equal_refl}
use dusk_blockchain.Encoding.Codec.{RoundTrips}
use dusk_blockchain.SortedSet.{Set, set_bytes}
use dusk_blockchain.SortedSet
use dusk_blockchain.SortedSet.Search.{Increasing, has}
use dusk_blockchain.SortedSet.Update.{Inserted, insert_correct, insert_new}
use dusk_blockchain.Crypto.Bls.{
  Curve, SecretKey, PublicKey, Apk, Signature, unmarshal_pk, unmarshal_signature, compress, h0, pkt,
  sign, aggregate, new_apk, apk_aggregate, apk_aggregate_bytes, aggregate_bytes, verify,
  verify_points,
}
use dusk_blockchain.Crypto.Bls.Aggregation.{Bilinear, key_of, sign-pairs}
use dusk_blockchain.Consensus.Header.{Header, marshal_signable_vote, sender}
use dusk_blockchain.Consensus.Keys.{Compresses, unmarshal_signature-compress}
use dusk_blockchain.Committee.Sortition.{minimal_bytes}
use dusk_blockchain.Reduction.Event.{Reduction}
use dusk_blockchain.Reduction.Handler.Accepted.{vote_header}
use dusk_blockchain.Agreement.Event.{StepVotes, Slot, add_vote, first_vote, next_vote}
use dusk_blockchain.Agreement.Handler.{
  Collected, slot_of, keys_of, collect_vote, add_to_map, add_all, reconstruct_rest, reconstruct_apk,
  verify_signatures,
}

-- The target of the pairing is a commutative group.
pub record Commutes (c : Curve) : Type 0 where
  pub unit : c.GT
  pub unit_right : (x : c.GT) → c.add_t x unit ≡ x
  pub comm : (x y : c.GT) → c.add_t x y ≡ c.add_t y x
  pub assoc : (x y z : c.GT) → c.add_t (c.add_t x y) z ≡ c.add_t x (c.add_t y z)

pub record Voter : Type 0 where
  pub secret : SecretKey
  pub key : Bytes

unfoldable pub number : Voter → ℕ
number v = set_bytes v.key

-- The voters have different keys.
abbrev pub Distinct : List Voter → Type 0
Distinct [] = Unit {0}
Distinct (v ∷ vs) = All (λ w. number v ≢ number w) vs × Distinct vs

module _ (c : Curve) where
  -- The key is the voter's and in the committee, and no leading zero of it is lost in its number.
  pub record IsVoter (members : Set) (v : Voter) : Type 0 where
    pub decodes : unmarshal_pk c v.key ≡ some (key_of c v.secret)
    pub whole : minimal_bytes (set_bytes v.key) ≡ v.key
    pub member : has members (number v) ≡ true

  abbrev pub Decodes : ℕ → Type 0
  Decodes k = (pk : PublicKey c) × (unmarshal_pk c (minimal_bytes k) ≡ some pk)

  module _ (group : Commutes c) (msg : Bytes) where
    -- What the holder of a key adds to the pairing of the message.
    unfoldable pub share : ℕ → c.GT
    share k = elim (unmarshal_pk c (minimal_bytes k)) [
      | none ↦ group.unit
      | some pk ↦ c.pair (h0 c msg) (pkt c pk)
    ]

    unfoldable pub total : Set → c.GT
    total [] = group.unit
    total (k ∷ ks) = c.add_t (share k) (total ks)

    share-decoded :
        (k : ℕ) (pk : PublicKey c)
        → unmarshal_pk c (minimal_bytes k) ≡ some pk
        → share k ≡ c.pair (h0 c msg) (pkt c pk)
    unfolding share
    share-decoded k pk e = rw (share, e)

    swap : (x y z : c.GT) → c.add_t x (c.add_t y z) ≡ c.add_t y (c.add_t x z)
    swap x y z =
        sym (group.assoc x y z) ∙ ap (λ t. c.add_t t z) (group.comm x y) ∙ group.assoc y x z

    total-put :
        (xs ys : Set) (k : ℕ) → total (xs ++ (k ∷ ys)) ≡ c.add_t (share k) (total (xs ++ ys))
    unfolding total
    total-put [] ys k = refl
    total-put (x ∷ xs) ys k =
        ap (c.add_t (share x)) (total-put xs ys k) ∙ swap (share x) (share k) (total (xs ++ ys))

    total-insert :
        (keys : Set) (k : ℕ)
        → Increasing keys
        → has keys k ≡ false
        → total (SortedSet.insert keys k).0 ≡ c.add_t (share k) (total keys)
    total-insert keys k s new =
        let (i, e) = insert_new keys k s new in
        ap total e
        ∙ total-put (take i keys) (drop i keys) k
        ∙ ap (λ v. c.add_t (share k) (total v)) (take-append-drop i keys)

    module _ (laws : Bilinear c) where
      rest-pairs :
          (keys : Set) (apk : Apk c)
          → All Decodes keys
          → (out : Apk c) × (reconstruct_rest c apk keys ≡ some out)
            × (c.pair (h0 c msg) out.public_key.gx
                ≡ c.add_t (c.pair (h0 c msg) apk.public_key.gx) (total keys))
      unfolding reconstruct_rest total apk_aggregate
      rest-pairs [] apk d = (apk, refl, sym (group.unit_right _))
      rest-pairs (k ∷ keys) apk ((pk, e), d) =
          let (out, f, g) = rest-pairs keys (apk_aggregate c apk pk) d in
          (
            out,
            rw (reconstruct_rest, e) f,
            (g
                ∙ ap (λ t. c.add_t t (total keys))
                    (laws.pair_add2 (h0 c msg) apk.public_key.gx (pkt c pk))
                ∙ group.assoc _ _ _
                ∙ ap (λ s. c.add_t (c.pair (h0 c msg) apk.public_key.gx) (c.add_t s (total keys)))
                    (sym (share-decoded k pk e))),
          )

      -- The key of a set that is not empty is reconstructed, and it pairs as the shares add up.
      pub reconstruct-pairs :
          (keys : Set)
          → 0 < length keys
          → All Decodes keys
          → (out : Apk c) × (reconstruct_apk c keys ≡ some out)
            × (c.pair (h0 c msg) out.public_key.gx ≡ total keys)
      unfolding reconstruct_apk total new_apk
      reconstruct-pairs [] n d = absurd (omega arith)
      reconstruct-pairs (k ∷ keys) n ((pk, e), d) =
          let (out, f, g) = rest-pairs keys (new_apk c pk) d in
          (
            out,
            rw (reconstruct_apk, e) f,
            g ∙ ap (λ s. c.add_t s (total keys)) (sym (share-decoded k pk e)),
          )
