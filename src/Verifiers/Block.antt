-- ===== src/Verifiers/Block.antt =====
-- pkg/core/verifiers/block.go: what a block has to satisfy. The header is behind a pointer, so that
-- what a check changes of it stays changed for the caller.
pub mod Accepted
use dusk_blockchain.Base.{
  ℕ, suc, ◌+◌, ◌%◌, ◌^◌, Bool, true, false, ◌==◌, not, ltb, leb, if◌then◌else◌, List, [], ◌∷◌,
  Option, none, some,
}
use dusk_blockchain.Encoding.Buffer.{Bytes, equal}
use dusk_blockchain.Transactions.Standard.{coinbase_type}
use dusk_blockchain.Transactions.Transaction.{Transaction, type}
use dusk_blockchain.Block.Header.{Header}
use dusk_blockchain.Block.Body.{Block}
use dusk_blockchain.Block.Root.{set_root}
use dusk_blockchain.Verifiers.Faults.{
  Check, ◌&?◌, database_fault, block_exists, many_coinbases, no_coinbase, unsupported_version,
  wrong_previous, wrong_height, old_timestamp, no_root, root_mismatch,
}
use dusk_blockchain.Verifiers.Transaction.{Queries, check_tx}

-- `<=` on int64 values that are given by their bit patterns.
unfoldable pub leb_int64 : ℕ → ℕ → Bool
leb_int64 a b = leb ((a + 2 ^ 63) % 2 ^ 64) ((b + 2 ^ 63) % 2 ^ 64)

unfoldable pub check_fields : Block → Block → Check
check_fields prev_block blk =
    if ltb 0 blk.header.version
    then some unsupported_version
    else if not (equal blk.header.prev_block_hash prev_block.header.hash)
    then some wrong_previous
    else if not (blk.header.height == (prev_block.header.height + 1) % 2 ^ 64)
    then some wrong_height
    else if leb_int64 blk.header.timestamp prev_block.header.timestamp
    then some old_timestamp
    else none

-- The root is calculated into the header, and compared to what was there.
unfoldable pub check_root : Block → Option Block → Check × Block
check_root blk none = (some no_root, blk)
check_root blk (some rooted) = (
  if not (equal blk.header.tx_root rooted.header.tx_root) then some root_mismatch else none,
  rooted,
)

module _ (sha3_256 : Bytes → Bytes) where
  -- The check, and the block as it leaves it.
  unfoldable pub check_block_header : Block → Block → Check × Block
  check_block_header prev_block blk = elim (check_fields prev_block blk) [
    | some e ↦ (some e, blk)
    | none ↦ check_root blk (set_root sha3_256 blk)
  ]

-- The loop, with whether a coinbase was seen.
unfoldable pub check_coinbases : Bool → List Transaction → Check
check_coinbases seen [] = if seen then none else some no_coinbase
check_coinbases seen (tx ∷ txs) =
    if not (type tx == coinbase_type)
    then check_coinbases seen txs
    else if seen
    then some many_coinbases
    else check_coinbases true txs

unfoldable pub check_multi_coinbases : List Transaction → Check
check_multi_coinbases txs = check_coinbases false txs

unfoldable pub check_txs : Queries → ℕ → ℕ → List Transaction → Check
check_txs db i block_time [] = none
check_txs db i block_time (tx ∷ txs) =
    check_tx db i block_time tx &? check_txs db (suc i) block_time txs

-- What `FetchBlockExists` says: no error, `ErrBlockNotFound`, or another error.
pub data Stored : Type 0 where
  found not_found failed : Stored

unfoldable pub check_unseen : Stored → Check
check_unseen found = some block_exists
check_unseen not_found = none
check_unseen failed = some database_fault

module _ (sha3_256 : Bytes → Bytes) (stored : Bytes → Stored) (db : Queries) where
  unfoldable pub check_after_header : Check × Block → Check × Block
  check_after_header (some e, blk) = (some e, blk)
  check_after_header (none, blk) =
      (check_multi_coinbases blk.txs &? check_txs db 0 blk.header.timestamp blk.txs, blk)

  unfoldable pub check_block : Block → Block → Check × Block
  check_block prev_block blk = elim (check_unseen (stored blk.header.hash)) [
    | some e ↦ (some e, blk)
    | none ↦ check_after_header (check_block_header sha3_256 prev_block blk)
  ]
