-- ===== src/Verifiers/Transaction/Accepted.antt =====
-- What holds of a transaction that the checks let pass.
use dusk_blockchain.Base.{
  ℕ, ◌≤◌, ◌≡◌, ◌≢◌, refl, arith, inl, inr, Bool, Bool-cases, true, false, ◌==◌, not, ltb, All, List,
  [], ◌∷◌, length, Option, none, some,
}
use dusk_blockchain.Encoding.Buffer.{Bytes}
use dusk_blockchain.Transactions.Input.{Input}
use dusk_blockchain.Transactions.Standard.{Standard, coinbase_type}
use dusk_blockchain.Transactions.Duplicates.{has_duplicate_inputs, has_duplicate_outputs}
use dusk_blockchain.Transactions.Transaction.{
  Transaction, standard, time_lock, bid, stake, coinbase, standard_tx, type,
}
use dusk_blockchain.Verifiers.Faults.{Check, both-pass, guard-pass}
use dusk_blockchain.Verifiers.Transaction.{
  Queries, min_fee, max_lock_time, check_keys, check_rings, check_images, check_double_spent,
  check_standard_tx, check_lock_time_valid, check_special_fields, forgiven, check_tx,
}

-- The input's signature names keys of outputs that the chain has.
abbrev pub IsRing : Queries → Input → Type 0
IsRing db i =
    (keys : List Bytes) × (db.ring_keys i.signature ≡ some keys)
    × All (λ k. db.output_exists k ≡ some true) keys

-- The same, and its key image is not spent.
abbrev pub IsSpendable : Queries → Input → Type 0
IsSpendable db i = IsRing db i × (db.key_image_known i.key_image ≡ false)

check_keys-pass :
    (exists : Bytes → Option Bool) (keys : List Bytes)
    → check_keys exists keys ≡ none
    → All (λ k. exists k ≡ some true) keys
unfolding check_keys
check_keys-pass exists [] h = tt
check_keys-pass exists (k ∷ keys) h = split (exists k) refl (check_keys-pass exists keys)
  where
    split :
        (o : Option Bool)
        → exists k ≡ o
        → (check_keys exists keys ≡ none → All (λ k. exists k ≡ some true) keys)
        → All (λ k. exists k ≡ some true) (k ∷ keys)
    split none e rest = absurd (cc (rw (e, check_keys) at h))
    split (some false) e rest = absurd (cc (rw (e, check_keys) at h))
    split (some true) e rest = (e, rest (rw (e, check_keys) at h))

check_rings-pass :
    (db : Queries) (inputs : List Input) → check_rings db inputs ≡ none → All (IsRing db) inputs
unfolding check_rings
check_rings-pass db [] h = tt
check_rings-pass db (i ∷ inputs) h =
    split (db.ring_keys i.signature) refl (check_rings-pass db inputs)
  where
    split :
        (o : Option (List Bytes))
        → db.ring_keys i.signature ≡ o
        → (check_rings db inputs ≡ none → All (IsRing db) inputs)
        → All (IsRing db) (i ∷ inputs)
    split none e rest = absurd (cc (rw (e, check_rings) at h))
    split (some keys) e rest =
        let (a, b) = both-pass _ _ (rw (e, check_rings) at h) in
        ((keys, e, check_keys-pass db.output_exists keys a), rest b)

check_images-pass :
    (db : Queries) (inputs : List Input)
    → check_images db inputs ≡ none
    → All (λ i. db.key_image_known i.key_image ≡ false) inputs
unfolding check_images
check_images-pass db [] h = tt
check_images-pass db (i ∷ inputs) h = elim (Bool-cases (db.key_image_known i.key_image)) [
  | inl known ↦ absurd (cc (rw known at h))
  | inr new ↦ (new, check_images-pass db inputs (rw new at h))
]

all-IsSpendable :
    (db : Queries) (inputs : List Input)
    → All (IsRing db) inputs
    → All (λ i. db.key_image_known i.key_image ≡ false) inputs
    → All (IsSpendable db) inputs
all-IsSpendable db [] p q = tt
all-IsSpendable db (i ∷ inputs) p q = ((p.0, q.0), all-IsSpendable db inputs p.1 q.1)

-- What the rules ask of the standard fields.
pub record IsPayable (db : Queries) (tx : Standard) : Type 0 where
  pub version : tx.version ≡ 0
  pub type : tx.tx_type ≤ 5
  pub fee : min_fee ≤ tx.fee
  pub inputs : 1 ≤ length tx.inputs
  pub outputs : 1 ≤ length tx.outputs
  pub images : has_duplicate_inputs tx.inputs ≡ false
  pub keys : has_duplicate_outputs tx.outputs ≡ false
  pub spendable : All (IsSpendable db) tx.inputs

-- The standard checks pass only what has version zero, a known type, the least fee, inputs and outputs,
-- no mirrored duplicate, and inputs that are unspent and belong to the chain.
pub check_standard_tx-IsPayable :
    (db : Queries) (tx : Standard) → check_standard_tx db tx ≡ none → IsPayable db tx
unfolding check_standard_tx check_double_spent
check_standard_tx-IsPayable db tx h =
    let (version, h1) = guard-pass (not (tx.version == 0)) _ _ h in
    let (type, h2) = guard-pass (ltb 5 tx.tx_type) _ _ h1 in
    let (fee, h3) = guard-pass (ltb tx.fee min_fee) _ _ h2 in
    let (inputs, h4) = guard-pass (length tx.inputs == 0) _ _ h3 in
    let (images, h5) = guard-pass (has_duplicate_inputs tx.inputs) _ _ h4 in
    let (outputs, h6) = guard-pass (length tx.outputs == 0) _ _ h5 in
    let (keys, h7) = guard-pass (has_duplicate_outputs tx.outputs) _ _ h6 in
    let (rings, unspent) = both-pass _ _ h7 in
    record {
      version = ground arith;
      type = ground arith;
      fee = ground arith;
      inputs = ground arith;
      outputs = ground arith;
      images = images;
      keys = keys;
      spendable =
          all-IsSpendable db tx.inputs (check_rings-pass db tx.inputs rings)
            (check_images-pass db tx.inputs unspent);
    }

-- The lock of a transaction that has one.
unfoldable pub lock : Transaction → ℕ
lock (time_lock t) = t.lock
lock (bid b) = b.time_lock.lock
lock (stake s) = s.time_lock.lock
lock tx = 0

-- A transaction other than a coinbase passes only if its standard fields satisfy the rules and its lock
-- is within the limit.
pub check_tx-IsPayable :
    (db : Queries) (index block_time : ℕ) (tx : Transaction)
    → type tx ≢ coinbase_type
    → check_tx db index block_time tx ≡ none
    → IsPayable db (standard_tx tx) × (lock tx ≤ max_lock_time)
unfolding check_tx forgiven lock check_special_fields check_lock_time_valid
check_tx-IsPayable db index block_time tx other h =
    let (first, last) = both-pass _ _ h in
    (
      check_standard_tx-IsPayable db (standard_tx tx)
          (strict (check_standard_tx db (standard_tx tx)) first),
      within tx last,
    )
  where
    strict : (o : Check) → forgiven (type tx) o ≡ none → o ≡ none
    strict none e = refl
    strict (some fault) e = ground arith

    within :
        (tx : Transaction)
        → check_special_fields db index block_time tx ≡ none
        → lock tx ≤ max_lock_time
    within (standard s) e = omega arith
    within (time_lock t) e = ground arith
    within (bid b) e = ground arith
    within (stake s) e = ground arith
    within (coinbase c) e = omega arith
