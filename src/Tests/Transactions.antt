-- ===== src/Tests/Transactions.antt =====
-- Concrete runs of pkg/core/transactions, pkg/core/block and pkg/crypto/merkletree.
use dusk_blockchain.Base.{
  ◌-◌, ◌≡◌, ◌↔◌, refl, arith, false, List, [], ◌∷◌, ◌++◌, replicate, Option, some, length,
}
use dusk_blockchain.Encoding.Buffer.{Bytes, ok}
use dusk_blockchain.Encoding.Codec.{RoundTrips}
use dusk_blockchain.Transactions.Input.{Input}
use dusk_blockchain.Transactions.Output.{Output}
use dusk_blockchain.Transactions.Duplicates.{NoPair, has_duplicates, has_duplicates_iff}
use dusk_blockchain.Transactions.Standard.{stake_type}
use dusk_blockchain.Transactions.Locked.{Stake}
use dusk_blockchain.Transactions.Coinbase.{Coinbase}
use dusk_blockchain.Transactions.Transaction
use dusk_blockchain.Transactions.Transaction.{Transaction, standard, stake, coinbase, with_id}
use dusk_blockchain.Transactions.Transaction.RoundTrip.{IsWellFormed, transaction-RoundTrips}
use dusk_blockchain.Block.Certificate.{empty_certificate}
use dusk_blockchain.Block.Body
use dusk_blockchain.Block.Body.{Block}
use dusk_blockchain.Block.Body.RoundTrip.{IsWhole, unhashed, block-RoundTrips}
use dusk_blockchain.Crypto.Merkle.{
  Tree, new_tree, verify_content, make_leaves, make_even, with_duplicate, duplicate, build,
  create_intermediate, pair_up, join,
}
use dusk_blockchain.Crypto.Merkle.Root.{pairs, reduce, merkle_root-new_tree, new_tree_repeats}
use dusk_blockchain.Crypto.Merkle.Content.{any_equal, verify_content-new_tree}

abbrev pub some_input : Input
some_input = record {
  key_image = replicate 32 1;
  pub_key = replicate 32 2;
  pseudo_commitment = replicate 32 3;
  signature = 9 ∷ [];
}

abbrev pub some_output : Output
some_output = record {
  commitment = replicate 32 4;
  dest_key = replicate 32 5;
  encrypted_amount = 6 ∷ [];
  encrypted_mask = 7 ∷ [];
}

abbrev pub stake_tx : Stake
stake_tx = record {
  time_lock = record {
    standard = record {
      tx_type = stake_type;
      r = replicate 32 8;
      version = 0;
      tx_id = 1 ∷ [];
      inputs = some_input ∷ [];
      outputs = some_output ∷ [];
      fee = 100;
      range_proof = 1 ∷ 2 ∷ [];
    };
    lock = 1000;
  };
  pub_key_ed = replicate 32 10;
  pub_key_bls = replicate 129 11;
}

abbrev pub coinbase_tx : Coinbase
coinbase_tx = record {
  tx_type = 0;
  tx_id = [];
  r = replicate 32 0;
  score = replicate 32 1;
  proof = [];
  rewards = some_output ∷ [];
}

stake_tx-IsWellFormed : IsWellFormed (stake stake_tx)
unfolding IsWellFormed
stake_tx-IsWellFormed = (ground arith, refl, tt)

coinbase_tx-IsWellFormed : IsWellFormed (coinbase coinbase_tx)
unfolding IsWellFormed dusk_blockchain.Transactions.Coinbase.IsMasked
coinbase_tx-IsWellFormed = (ground arith, refl, ground arith)

transaction-RoundTrips_example :
    RoundTrips
      (Transaction.encode (stake stake_tx))
      Transaction.decode
      (with_id [] (stake stake_tx))
transaction-RoundTrips_example = transaction-RoundTrips (stake stake_tx) stake_tx-IsWellFormed

abbrev pub small_block : Block
small_block = record {
  header = record {
    version = 0;
    height = 7;
    timestamp = 1000;
    prev_block_hash = replicate 32 1;
    seed = replicate 33 2;
    tx_root = replicate 32 3;
    certificate = empty_certificate;
    hash = replicate 32 4;
  };
  txs = coinbase coinbase_tx ∷ stake stake_tx ∷ [];
}

small_block-IsWhole : IsWhole small_block
unfolding empty_certificate
small_block-IsWhole = record {
  header = omega arith;
  few = omega arith;
  txs = (coinbase_tx-IsWellFormed, (stake_tx-IsWellFormed, tt));
}

block-RoundTrips_example :
    (bytes : Bytes) × ((buf : Bytes) → Body.encode small_block buf ≡ ok tt (buf ++ bytes))
    × ((rest : Bytes) → Body.decode (bytes ++ rest) ≡ ok (unhashed small_block) [])
block-RoundTrips_example = block-RoundTrips small_block small_block-IsWhole

abbrev keys : List Bytes
keys = (1 ∷ []) ∷ (1 ∷ []) ∷ (2 ∷ []) ∷ []

has_duplicates_iff_example : (has_duplicates keys ≡ false) ↔ NoPair keys 0 (length keys - 1)
has_duplicates_iff_example = has_duplicates_iff keys

-- A payload is its own hash, and two hashes are joined between marks.
abbrev pub bracket : Bytes → Bytes
bracket bs = 0 ∷ (bs ++ (1 ∷ []))

abbrev own : Bytes → Option Bytes
own p = some p

abbrev three : List Bytes
three = (5 ∷ []) ∷ (6 ∷ []) ∷ (7 ∷ []) ∷ []

abbrev four : List Bytes
four = (5 ∷ []) ∷ (6 ∷ []) ∷ (7 ∷ []) ∷ (7 ∷ []) ∷ []

verify_content-new_tree_example :
    (t : Tree Bytes) × (new_tree own bracket three ≡ some t)
    × (verify_content own bracket t (6 ∷ []) ≡ some (any_equal (6 ∷ []) three))
verify_content-new_tree_example =
    verify_content-new_tree own bracket (λ p. p) (5 ∷ []) ((6 ∷ []) ∷ (7 ∷ []) ∷ []) (6 ∷ [])
      (refl, (refl, (refl, tt))) refl

three_built : (t : Tree Bytes) × (new_tree own bracket three ≡ some t)
unfolding new_tree make_leaves make_even with_duplicate duplicate build create_intermediate pair_up
    join
three_built = (_, refl)

four_built : (t : Tree Bytes) × (new_tree own bracket four ≡ some t)
unfolding new_tree make_leaves make_even with_duplicate duplicate build create_intermediate pair_up
    join
four_built = (_, refl)

merkle_root-new_tree_example :
    reduce bracket 3 (pairs bracket three) ≡ some three_built.0.merkle_root
merkle_root-new_tree_example =
    merkle_root-new_tree own bracket (λ p. p) (5 ∷ []) ((6 ∷ []) ∷ (7 ∷ []) ∷ []) three_built.0 3
      (refl, (refl, (refl, tt))) three_built.1 (omega arith)

new_tree_repeats_example : three_built.0.merkle_root ≡ four_built.0.merkle_root
new_tree_repeats_example =
    new_tree_repeats own bracket (λ p. p) ((5 ∷ []) ∷ (6 ∷ []) ∷ []) (7 ∷ []) three_built.0
      four_built.0 (refl, (refl, (refl, (refl, tt)))) refl three_built.1 four_built.1
