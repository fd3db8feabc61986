-- ===== src/Tests/Mempool.antt =====
-- Concrete runs of pkg/core/mempool.
use mathlib.Core.List.{Mem}
use dusk_blockchain.Base.{◌≡◌, ◌≢◌, refl, arith, true, false, [], ◌∷◌, map, none, some, All}
use dusk_blockchain.Base.Assoc.{lookup}
use dusk_blockchain.Encoding.Buffer.{Bytes, bytes_key}
use dusk_blockchain.Crypto.Merkle.{
  Tree, new_tree, make_leaves, make_even, with_duplicate, duplicate, build, create_intermediate,
  join,
}
use dusk_blockchain.Crypto.Merkle.Content.{any_equal}
use dusk_blockchain.Transactions.Transaction.{
  Transaction, stake, standard_tx, tx_id, calculate_hash, with_id,
}
use dusk_blockchain.Block.Body.{Block}
use dusk_blockchain.Block.Root.{tx_hash}
use dusk_blockchain.Mempool.Pool.{TxDesc, array, has, len}
use dusk_blockchain.Mempool.Pending.{Mempool, on_pending_tx}
use dusk_blockchain.Mempool.Accepted.{on_accepted_block}
use dusk_blockchain.Mempool.Exclusive.{Sized, inputs_of, IsExclusive}
use dusk_blockchain.Mempool.Guarded.{on_pending_tx-IsExclusive}
use dusk_blockchain.Mempool.Cleaned.{IsSettled, on_accepted_block_lem}
use dusk_blockchain.Tests.Transactions.{stake_tx, small_block}
use dusk_blockchain.Tests.Verifiers.{chain, one_hash}

abbrev waiting : TxDesc
waiting = record { tx = stake stake_tx; received = 5; verified = 6 }

abbrev empty : Mempool
empty = record {
  verified = record { entries = []; spent_key_images = []; capacity = 10; txs_size = 0 };
  latest_block_timestamp = 900;
}

empty-IsExclusive : IsExclusive empty.verified
unfolding lookup
empty-IsExclusive = record { spent = λ k t h. absurd cc; apart = λ k j t u h g. absurd cc }

waiting_sized : All Sized (inputs_of waiting)
unfolding standard_tx
waiting_sized = (refl, tt)

on_pending_tx-IsExclusive_example :
    IsExclusive (on_pending_tx one_hash none chain empty 7 waiting).0.verified
on_pending_tx-IsExclusive_example =
    on_pending_tx-IsExclusive one_hash none chain empty 7 waiting waiting_sized empty-IsExclusive

-- The same transaction under another hash.
abbrev mined : TxDesc
mined = record waiting { tx = with_id (2 ∷ []) (stake stake_tx) }

abbrev full : Mempool
full = record empty {
  verified = record empty.verified {
    entries = (array (1 ∷ []), waiting) ∷ (array (2 ∷ []), mined) ∷ [];
  };
}

abbrev block : Block
block = record small_block {
  header = record small_block.header { tx_root = 1 ∷ [] };
  txs = mined.tx ∷ [];
}

block_tree :
    (tree : Tree Transaction) × (new_tree (tx_hash one_hash) one_hash block.txs ≡ some tree)
    × (tree.merkle_root ≡ block.header.tx_root)
unfolding new_tree make_leaves make_even with_duplicate duplicate build create_intermediate join
    tx_hash calculate_hash tx_id with_id
block_tree = (_, refl, refl)

full-IsSettled : All (IsSettled one_hash tx_id) full.verified.entries
unfolding calculate_hash tx_id with_id standard_tx
full-IsSettled = (
  record { hashed = refl; keyed = refl; sized = (refl, tt) },
  (record { hashed = refl; keyed = refl; sized = (refl, tt) }, tt),
)

mined_hashes : tx_hash one_hash mined.tx ≡ some (tx_id mined.tx)
unfolding tx_hash calculate_hash tx_id with_id
mined_hashes = refl

two_wait : len full.verified ≢ 0
unfolding len
two_wait = λ e. omega arith

on_accepted_block_lem_example :
    ((k : Bytes) (t : TxDesc)
      → lookup k (on_accepted_block one_hash (λ es. es) 10 full block).verified.entries ≡ some t
      → Mem (k, t) full.verified.entries
        × (any_equal (tx_id t.tx) (map tx_id (mined.tx ∷ [])) ≡ false))
    × All
        (λ e.
          any_equal (tx_id e.1.tx) (map tx_id (mined.tx ∷ [])) ≡ false
          → has e.0 (on_accepted_block one_hash (λ es. es) 10 full block).verified.entries ≡ true)
        full.verified.entries
on_accepted_block_lem_example =
    on_accepted_block_lem one_hash tx_id (λ es. es) 10 full block mined.tx [] block_tree.0 refl
      (mined_hashes, tt) block_tree.1 block_tree.2 two_wait full-IsSettled
