-- ===== src/Block/Root.antt =====
-- pkg/core/block/block.go, SetRoot: the hash tree over a block's transactions.
use dusk_blockchain.Base.{
  ◌≡◌, refl, map, Option, none, some, ◌⊎◌, inl, inr, Bool-cases, true, ◌==◌, length,
}
use dusk_blockchain.Base.Options.{◌>>=◌}
use dusk_blockchain.Encoding.Buffer.{Bytes}
use dusk_blockchain.Crypto.Merkle.{Tree, new_tree}
use dusk_blockchain.Transactions.Transaction
use dusk_blockchain.Transactions.Transaction.{
  Transaction, calculate_hash, hash_bytes, tx_id, with_id,
}
use dusk_blockchain.Block.Body.{Block}

-- `sha3_256` is the hash of golang.org/x/crypto.
module _ (sha3_256 : Bytes → Bytes) where
  -- `CalculateHash` as the tree calls it, and what it leaves of the transaction.
  unfoldable pub tx_hash : Transaction → Option Bytes
  tx_hash tx = do (id, hashed) ← calculate_hash sha3_256 tx; some id

  unfoldable pub remembered : Transaction → Transaction
  remembered tx = elim (calculate_hash sha3_256 tx) [ none ↦ tx | some (id, hashed) ↦ hashed ]

  unfoldable pub with_root : Block → Tree Transaction → Block
  with_root b tree = record b {
    header = record b.header { tx_root = tree.merkle_root };
    txs = map remembered b.txs;
  }

  -- `none` is the error, of a hash or of a block without transactions.
  unfoldable pub set_root : Block → Option Block
  set_root b = do tree ← new_tree tx_hash sha3_256 b.txs; some (with_root b tree)

  -- A transaction keeps all but its identifier.
  pub remembered_lem :
      (tx : Transaction) → (remembered tx ≡ tx) ⊎ ((id : Bytes) × (remembered tx ≡ with_id id tx))
  unfolding remembered calculate_hash
  remembered_lem tx = elim (Bool-cases (length (tx_id tx) == 0)) [
    | inl fresh ↦ split (hash_bytes sha3_256 (Transaction.encode tx)) refl fresh
    | inr hashed ↦ inl (rw (remembered, hashed))
  ]
    where
      split :
          (o : Option Bytes)
          → hash_bytes sha3_256 (Transaction.encode tx) ≡ o
          → (length (tx_id tx) == 0) ≡ true
          → (remembered tx ≡ tx) ⊎ ((id : Bytes) × (remembered tx ≡ with_id id tx))
      split none e fresh = inl (rw (remembered, fresh, e))
      split (some id) e fresh = inr (id, rw (remembered, fresh, e))
