-- ===== src/Mempool/Accepted.antt =====
-- pkg/core/mempool/mempool.go: what an accepted block takes out of the pool.
use dusk_blockchain.Base.{
  ℕ, Bool, true, false, ◌==◌, not, if◌then◌else◌, List, [], ◌∷◌, Option, none, some,
}
use dusk_blockchain.Encoding.Buffer.{Bytes, equal}
use dusk_blockchain.Crypto.Merkle.{Tree, new_tree, verify_content}
use dusk_blockchain.Transactions.Transaction.{Transaction}
use dusk_blockchain.Block.Body.{Block}
use dusk_blockchain.Block.Root.{tx_hash}
use dusk_blockchain.Mempool.Pool.{TxDesc, HashMap, len, put}
use dusk_blockchain.Mempool.Pending.{Mempool}

-- `newPool`, with the configured capacity.
unfoldable pub new_pool : ℕ → HashMap
new_pool prealloc_txs = record {
  entries = [];
  spent_key_images = [];
  capacity = prealloc_txs;
  txs_size = 0;
}

module _ (sha3_256 : Bytes → Bytes) where
  -- `if r, _ := tree.VerifyContent(t.tx); !r`: an error counts as not found.
  unfoldable pub in_block : Tree Transaction → Transaction → Bool
  in_block tree tx = elim (verify_content (tx_hash sha3_256) sha3_256 tree tx) [
    | none ↦ false
    | some r ↦ r
  ]

  -- The callback of `Range`, until an error ends it.
  unfoldable pub keep_others : Tree Transaction → List (Bytes × TxDesc) → HashMap → HashMap
  keep_others tree [] s = s
  keep_others tree ((k, t) ∷ es) s =
      let skipped = keep_others tree es s in
      if in_block tree t.tx
      then skipped
      else (let (done, s') = put sha3_256 s t in
          elim done [ true ↦ keep_others tree es s' | false ↦ s' ])

-- The order in which Go goes through the entries of the pool is a parameter.
module _ (sha3_256 : Bytes → Bytes) (order : List (Bytes × TxDesc) → List (Bytes × TxDesc))
    (prealloc_txs : ℕ) where
  unfoldable pub clean_up : Mempool → Block → Option (Tree Transaction) → Mempool
  clean_up m b none = m
  clean_up m b (some tree) = if not (equal tree.merkle_root b.header.tx_root) then m else record m {
    verified = keep_others sha3_256 tree (order m.verified.entries) (new_pool prealloc_txs);
  }

  unfoldable pub remove_accepted : Mempool → Block → Mempool
  remove_accepted m b =
      if len m.verified == 0 then m else clean_up m b (new_tree (tx_hash sha3_256) sha3_256 b.txs)

  unfoldable pub on_accepted_block : Mempool → Block → Mempool
  on_accepted_block m b =
      remove_accepted (record m { latest_block_timestamp = b.header.timestamp }) b
