-- ===== src/Mempool/Guarded.antt =====
-- The handling of a pending transaction keeps the pool exclusive.
use dusk_blockchain.Base.{
  ℕ, ◌≡◌, ◌∙◌, refl, sym, ap, subst, inl, inr, Bool, Bool-cases, true, false, ◌==◌, not, All, List,
  [], ◌∷◌, Option, none, some,
}
use dusk_blockchain.Encoding.Buffer.{Bytes}
use dusk_blockchain.Transactions.Input.{Input}
use dusk_blockchain.Transactions.Standard.{coinbase_type}
use dusk_blockchain.Transactions.Transaction.{
  Transaction, standard, time_lock, bid, stake, coinbase, standard_tx, type, calculate_hash,
  with_id,
}
use dusk_blockchain.Transactions.Coinbase
use dusk_blockchain.Block.Root.{remembered, remembered_lem}
use dusk_blockchain.Verifiers.Transaction.{Queries}
use dusk_blockchain.Mempool.Pool.{TxDesc, HashMap, contains, contains_key_image, put}
use dusk_blockchain.Mempool.Pending.{
  Mempool, spent_in_pool, check_pending, after_put, on_hashed, on_pending_tx,
}
use dusk_blockchain.Mempool.Exclusive.{
  Sized, Unmarked, IsExclusive, inputs_of, put_hashed-IsExclusive,
}

with_id-inputs :
    (id : Bytes) (tx : Transaction) → (standard_tx (with_id id tx)).inputs ≡ (standard_tx tx).inputs
unfolding with_id standard_tx dusk_blockchain.Transactions.Coinbase.standard_tx
with_id-inputs id (standard s) = refl
with_id-inputs id (time_lock t) = refl
with_id-inputs id (bid b) = refl
with_id-inputs id (stake s) = refl
with_id-inputs id (coinbase c) = refl

spent_in_pool-Unmarked :
    (p : HashMap) (inputs : List Input)
    → spent_in_pool p inputs ≡ false
    → All (Unmarked p.spent_key_images) inputs
unfolding spent_in_pool contains_key_image
spent_in_pool-Unmarked p [] h = tt
spent_in_pool-Unmarked p (i ∷ inputs) h = elim (Bool-cases (contains_key_image p i.key_image)) [
  | inl there ↦ absurd (cc (rw there at h))
  | inr new ↦ (new, spent_in_pool-Unmarked p inputs (rw new at h))
]

module _ (sha3_256 : Bytes → Bytes) where
  calculate_hash-inputs :
      (tx hashed : Transaction) (id : Bytes)
      → calculate_hash sha3_256 tx ≡ some (id, hashed)
      → (standard_tx hashed).inputs ≡ (standard_tx tx).inputs
  unfolding remembered
  calculate_hash-inputs tx hashed id e =
      let same : remembered sha3_256 tx ≡ hashed = rw (remembered, e) in
      elim (remembered_lem sha3_256 tx) [
        | inl k ↦ ap (λ x. (standard_tx x).inputs) (sym same ∙ k)
        | inr (other, k) ↦ ap (λ x. (standard_tx x).inputs) (sym same ∙ k) ∙ with_id-inputs other tx
      ]

  put-IsExclusive :
      (p : HashMap) (t : TxDesc)
      → All Sized (inputs_of t)
      → All (Unmarked p.spent_key_images) (inputs_of t)
      → IsExclusive p
      → IsExclusive (put sha3_256 p t).1
  unfolding put
  put-IsExclusive p t v fresh good = split (calculate_hash sha3_256 t.tx) refl
    where
      split :
          (o : Option (Bytes × Transaction))
          → calculate_hash sha3_256 t.tx ≡ o
          → IsExclusive (put sha3_256 p t).1
      split none e = rw (e, put) good
      split (some (id, hashed)) e =
          let same = sym (calculate_hash-inputs t.tx hashed id e) in
          rw (e, put)
            (put_hashed-IsExclusive sha3_256 p (record t { tx = hashed }) id
              (subst (All Sized) same v) (subst (All (Unmarked p.spent_key_images)) same fresh)
              good)

  module _ (verify_tx : Option (Transaction → Bool)) (db : Queries) where
    after_put-IsExclusive :
        (m : Mempool) (id : Bytes) (r : Bool × HashMap)
        → IsExclusive r.1
        → IsExclusive (after_put sha3_256 verify_tx db m id r).0.verified
    unfolding after_put
    after_put-IsExclusive m id (false, pool) good = good
    after_put-IsExclusive m id (true, pool) good = good

    on_hashed-IsExclusive :
        (m : Mempool) (now : ℕ) (id : Bytes) (t : TxDesc)
        → All Sized (inputs_of t)
        → IsExclusive m.verified
        → IsExclusive (on_hashed sha3_256 verify_tx db m now id t).0.verified
    unfolding on_hashed
    on_hashed-IsExclusive m now id t v good = elim (Bool-cases (type t.tx == coinbase_type)) [
      | inl a ↦ rw a good
      | inr a ↦ elim (Bool-cases (contains m.verified id)) [
        | inl b ↦ rw (a, b) good
        | inr b ↦ elim (Bool-cases (spent_in_pool m.verified (inputs_of t))) [
          | inl c ↦ rw (a, b, c) good
          | inr c ↦ elim (Bool-cases (not (check_pending sha3_256 verify_tx db m t.tx))) [
            | inl d ↦ rw (a, b, c, d) good
            | inr d ↦
                rw (a, b, c, d)
                  (after_put-IsExclusive m id
                    (put sha3_256 m.verified (record t { verified = now }))
                    (put-IsExclusive m.verified (record t { verified = now }) v
                      (spent_in_pool-Unmarked m.verified (inputs_of t) c) good))
          ]
        ]
      ]
    ]

    -- Whatever becomes of a pending transaction whose key images have 32 bytes, no two transactions of
    -- the pool share a key image afterwards, and each key image is marked as spent, if that was so before.
    pub on_pending_tx-IsExclusive :
        (m : Mempool) (now : ℕ) (t : TxDesc)
        → All Sized (inputs_of t)
        → IsExclusive m.verified
        → IsExclusive (on_pending_tx sha3_256 verify_tx db m now t).0.verified
    unfolding on_pending_tx
    on_pending_tx-IsExclusive m now t v good = split (calculate_hash sha3_256 t.tx) refl
      where
        split :
            (o : Option (Bytes × Transaction))
            → calculate_hash sha3_256 t.tx ≡ o
            → IsExclusive (on_pending_tx sha3_256 verify_tx db m now t).0.verified
        split none e = rw (e, on_pending_tx) good
        split (some (id, hashed)) e =
            let same = sym (calculate_hash-inputs t.tx hashed id e) in
            rw (e, on_pending_tx)
              (on_hashed-IsExclusive m now id (record t { tx = hashed }) (subst (All Sized) same v)
                good)
