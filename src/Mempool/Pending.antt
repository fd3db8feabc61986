-- ===== src/Mempool/Pending.antt =====
-- pkg/core/mempool/mempool.go: what becomes of a transaction that arrives.
use dusk_blockchain.Base.{
  ℕ, ◌+◌, ◌%◌, ◌^◌, Bool, true, false, ◌==◌, not, ltb, if◌then◌else◌, List, [], ◌∷◌, ◌++◌, length,
  Option, none, some,
}
use dusk_blockchain.Encoding.Buffer.{Bytes, M, ok, err, ◌>>=◌, ◌>>◌, pure, panicked, fail, equal}
use dusk_blockchain.Encoding.Codec.{write_each}
use dusk_blockchain.Encoding.VarInt.{write_var_int}
use dusk_blockchain.Wire.Topics.{add_topic}
use dusk_blockchain.Wire.Messages.{encode_inv, add_item}
use dusk_blockchain.Transactions.Input.{Input}
use dusk_blockchain.Transactions.Standard.{coinbase_type}
use dusk_blockchain.Transactions.Transaction
use dusk_blockchain.Transactions.Transaction.{
  Transaction, standard_tx, type, calculate_hash, from_reader,
}
use dusk_blockchain.Verifiers.Faults.{Check}
use dusk_blockchain.Verifiers.Transaction.{Queries, check_tx}
use dusk_blockchain.Mempool.Pool.{TxDesc, HashMap, contains, contains_key_image, put}

-- The timestamp is the bit pattern of an int64.
pub record Mempool : Type 0 where
  pub verified : HashMap
  pub latest_block_timestamp : ℕ

-- Where the handling of a pending transaction ends: at an error that it logs, at a panic, or with the
-- message that it hands to the gossip.
pub data Handled : Type 0 where
  hash_failed coinbase_refused already_there already_spent not_valid not_stored inv_panics : Handled
  advertised : Bytes → Handled

abbrev pub consensus_seconds : ℕ
consensus_seconds = 20

-- The inventory of one transaction of the mempool, of type 0, behind the topic `inv`.
unfoldable pub advertise_tx : Bytes → Handled
advertise_tx tx_id = elim (encode_inv (add_item [] 0 tx_id) []) [
  | ok _ msg ↦ advertised (add_topic msg (0x69 ∷ 0x6e ∷ 0x76 ∷ []))
  | err e msg ↦ inv_panics
]

-- `checkTXDoubleSpent` of the mempool: `true` is the error.
unfoldable pub spent_in_pool : HashMap → List Input → Bool
spent_in_pool m [] = false
spent_in_pool m (input ∷ inputs) =
    if contains_key_image m input.key_image then true else spent_in_pool m inputs

passed : Check → Bool
passed none = true
passed (some e) = false

-- The message holds at least one transaction, which is queued with the time.
unfoldable pub collect : ℕ → M TxDesc
collect now = from_reader 1 >>= first
  where
    first : List Transaction → M TxDesc
    first [] = fail panicked
    first (tx ∷ txs) = pure (record { tx = tx; received = now; verified = 0 })

-- The verifier that was given, if any, and the chain's database.
module _ (sha3_256 : Bytes → Bytes) (verify_tx : Option (Transaction → Bool)) (db : Queries) where
  -- `uint64(consensusSeconds) + uint64(m.latestBlockTimestamp)`.
  unfoldable pub check_pending : Mempool → Transaction → Bool
  unfolding passed
  check_pending m tx = elim verify_tx [
    | some verify ↦ verify tx
    | none ↦ passed (check_tx db 0 ((consensus_seconds + m.latest_block_timestamp) % 2 ^ 64) tx)
  ]

  unfoldable pub after_put : Mempool → Bytes → Bool × HashMap → Mempool × Handled
  after_put m tx_id (false, pool) = (record m { verified = pool }, not_stored)
  after_put m tx_id (true, pool) = (record m { verified = pool }, advertise_tx tx_id)

  -- Behind the calculation of the hash, which the transaction remembers.
  unfoldable pub on_hashed : Mempool → ℕ → Bytes → TxDesc → Mempool × Handled
  on_hashed m now tx_id t =
      if type t.tx == coinbase_type
      then (m, coinbase_refused)
      else if contains m.verified tx_id
      then (m, already_there)
      else if spent_in_pool m.verified (standard_tx t.tx).inputs
      then (m, already_spent)
      else if not (check_pending m t.tx)
      then (m, not_valid)
      else after_put m tx_id (put sha3_256 m.verified (record t { verified = now }))

  unfoldable pub on_pending_tx : Mempool → ℕ → TxDesc → Mempool × Handled
  on_pending_tx m now t = elim (calculate_hash sha3_256 t.tx) [
    | none ↦ (m, hash_failed)
    | some (tx_id, hashed) ↦ on_hashed m now tx_id (record t { tx = hashed })
  ]

-- `Range` over the entries, in the order that is given: those of the identifier asked for, or the first
-- fifty.
unfoldable pub pick_txs : Bytes → List (Bytes × TxDesc) → List Transaction → List Transaction
pick_txs filter [] found = found
pick_txs filter ((k, t) ∷ es) found =
    if ltb 0 (length filter)
    then pick_txs filter es (if equal filter k then found ++ (t.tx ∷ []) else found)
    else pick_txs filter es (if ltb (length found) 50 then found ++ (t.tx ∷ []) else found)

unfoldable pub on_get_mempool_txs : List (Bytes × TxDesc) → Bytes → M (Unit {0})
on_get_mempool_txs entries filter =
    let output_txs = pick_txs filter entries [] in
    write_var_int (length output_txs) >> write_each Transaction.encode output_txs
