-- ===== src/Verifiers/Transaction.antt =====
-- pkg/core/verifiers/transaction.go: what a transaction has to satisfy.
pub mod Accepted
use dusk_blockchain.Base.{
  ℕ, ◌*◌, ◌≤◌, ◌≡◌, ◌≢◌, ◌↔◌, refl, arith, inl, inr, Bool, Bool-cases, true, false, ◌==◌, not, ltb,
  if◌then◌else◌, All, List, [], ◌∷◌, length, Option, none, some,
}
use dusk_blockchain.Encoding.Buffer.{Bytes}
use dusk_blockchain.Transactions.Input.{Input}
use dusk_blockchain.Transactions.Output.{Output}
use dusk_blockchain.Transactions.Standard.{Standard, coinbase_type}
use dusk_blockchain.Transactions.Locked.{TimeLock, Bid, Stake}
use dusk_blockchain.Transactions.Coinbase.{Coinbase}
use dusk_blockchain.Transactions.Duplicates.{has_duplicate_inputs, has_duplicate_outputs}
use dusk_blockchain.Transactions.Transaction.{
  Transaction, standard, time_lock, bid, stake, coinbase, standard_tx, type,
}
use dusk_blockchain.Verifiers.Faults.{
  Check, ◌&?◌, both-pass, invalid_version, invalid_type, low_fee, no_inputs, duplicate_inputs,
  no_outputs, duplicate_outputs, bad_signature, no_previous_output, already_spent, late_lock,
  coinbase_not_first, many_rewards, wrong_reward, database_fault,
}

-- pkg/config and timelocktx.go.
abbrev pub min_fee : ℕ
min_fee = 100

abbrev pub generator_reward : ℕ
generator_reward = 50 * 100000000

abbrev pub max_lock_time : ℕ
max_lock_time = 250000

-- What is asked of a read-only transaction of the database, where `none` is its error; whether it has a
-- key image or an identifier of the transaction that spent it; and what the mlsag signature of an input
-- and a ristretto scalar are decoded to: the ring's first keys, where `none` is an error, and the
-- scalar's low 64 bits.
pub record Queries : Type 0 where
  pub output_exists : Bytes → Option Bool
  pub key_image_known : Bytes → Bool
  pub ring_keys : Bytes → Option (List Bytes)
  pub scalar : Bytes → ℕ

unfoldable pub check_keys : (Bytes → Option Bool) → List Bytes → Check
check_keys exists [] = none
check_keys exists (key ∷ keys) = elim (exists key) [
  | none ↦ some database_fault
  | some false ↦ some no_previous_output
  | some true ↦ check_keys exists keys
]

unfoldable pub check_rings : Queries → List Input → Check
check_rings db [] = none
check_rings db (input ∷ inputs) = elim (db.ring_keys input.signature) [
  | none ↦ some bad_signature
  | some keys ↦ check_keys db.output_exists keys &? check_rings db inputs
]

unfoldable pub check_images : Queries → List Input → Check
check_images db [] = none
check_images db (input ∷ inputs) =
    if db.key_image_known input.key_image then some already_spent else check_images db inputs

-- `checkTXDoubleSpent`: two passes over the inputs.
unfoldable pub check_double_spent : Queries → List Input → Check
check_double_spent db inputs = check_rings db inputs &? check_images db inputs

unfoldable pub check_standard_tx : Queries → Standard → Check
check_standard_tx db tx =
    if not (tx.version == 0)
    then some invalid_version
    else if ltb 5 tx.tx_type
    then some invalid_type
    else if ltb tx.fee min_fee
    then some low_fee
    else if length tx.inputs == 0
    then some no_inputs
    else if has_duplicate_inputs tx.inputs
    then some duplicate_inputs
    else if length tx.outputs == 0
    then some no_outputs
    else if has_duplicate_outputs tx.outputs
    then some duplicate_outputs
    else check_double_spent db tx.inputs

-- The time of the block is not looked at.
unfoldable pub check_lock_time_valid : ℕ → ℕ → Check
check_lock_time_valid lock_time block_time =
    if ltb max_lock_time lock_time then some late_lock else none

-- One reward, of the fixed amount.
unfoldable pub check_reward : Queries → List Output → Check
check_reward db (reward ∷ []) =
    if db.scalar reward.encrypted_amount == generator_reward then none else some wrong_reward
check_reward db _ = some many_rewards

unfoldable pub verify_coinbase : Queries → ℕ → Coinbase → Check
verify_coinbase db tx_index tx =
    if not (tx_index == 0) then some coinbase_not_first else check_reward db tx.rewards

unfoldable pub check_special_fields : Queries → ℕ → ℕ → Transaction → Check
check_special_fields db tx_index block_time (standard tx) = none
check_special_fields db tx_index block_time (time_lock tx) =
    check_lock_time_valid tx.lock block_time
check_special_fields db tx_index block_time (bid tx) =
    check_lock_time_valid tx.time_lock.lock block_time
check_special_fields db tx_index block_time (stake tx) =
    check_lock_time_valid tx.time_lock.lock block_time
check_special_fields db tx_index block_time (coinbase tx) = verify_coinbase db tx_index tx

-- What the standard fields of a coinbase lack is forgiven.
unfoldable pub forgiven : ℕ → Check → Check
forgiven ty none = none
forgiven ty (some e) = if ty == coinbase_type then none else some e

unfoldable pub check_tx : Queries → ℕ → ℕ → Transaction → Check
unfolding forgiven
check_tx db index block_time tx =
    forgiven (type tx) (check_standard_tx db (standard_tx tx))
    &? check_special_fields db index block_time tx
