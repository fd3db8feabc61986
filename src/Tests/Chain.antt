-- ===== src/Tests/Chain.antt =====
-- Concrete runs of pkg/core/chain.
use dusk_blockchain.Base.{ℕ, ◌≡◌, refl, arith, List, [], ◌∷◌, replicate, none, some}
use dusk_blockchain.Encoding.Buffer.{Bytes, ok, equal, write, ◌>>◌}
use dusk_blockchain.Block.Body.{Block}
use dusk_blockchain.Committee.Store.{decode_new_provisioner}
use dusk_blockchain.Verifiers.Block.{
  not_found, check_block, check_unseen, check_block_header, check_fields, leb_int64, check_root,
  check_after_header, check_multi_coinbases, check_coinbases, check_txs,
}
use dusk_blockchain.Tests.Transactions.{stake_tx, some_output}
use dusk_blockchain.Tests.Verifiers
use dusk_blockchain.Tests.Verifiers.{last_block, next_block, unit_line, lone, certified}
use dusk_blockchain.Chain.{
  Database, Chain, new_provisioner, add_provisioner, provisioner_of, add_consensus_node,
  add_consensus_nodes, announce, store_checked, accept_checked, accept_block, done, advertise_block,
}
use dusk_blockchain.Chain.Staked.{announced, add_provisioner-decodes}
use dusk_blockchain.Chain.Linked.{IsAfter, Call, candidate, winning, run, run-IsAfter}
use dusk_blockchain.Block.Root.{set_root, with_root, tx_hash, remembered}
use dusk_blockchain.Transactions.Transaction.{calculate_hash, tx_id, type}
use dusk_blockchain.Crypto.Merkle.{
  new_tree, make_leaves, make_even, build, create_intermediate, join,
}
use dusk_blockchain.Verifiers.Transaction.{
  check_tx, check_standard_tx, check_double_spent, check_rings, check_keys, check_images,
  check_special_fields, check_lock_time_valid, verify_coinbase, check_reward,
}
use dusk_blockchain.Transactions.Duplicates.{
  has_duplicate_inputs, has_duplicate_outputs, has_duplicates, duplicates_from,
}
use dusk_blockchain.Agreement.Handler.{reconstruct_apk, reconstruct_rest, verify_signatures}
use dusk_blockchain.Crypto.Bls.{
  unmarshal_pk, new_apk, pkt, h1, verify, verify_points, h0, unmarshal_signature, compress,
}
use dusk_blockchain.Committee.Sortition.{minimal_bytes}
use dusk_blockchain.SortedSet.{set_bytes}
use dusk_blockchain.Encoding.Integers.{value, write_uint64, write_uint8}
use dusk_blockchain.Consensus.Header.{marshal_signable_vote}
use dusk_blockchain.Encoding.MiscData.{write_256, write_bls}
use dusk_blockchain.Verifiers.Certificate.{check_for_step, check_signed, check_block_certificate}
use dusk_blockchain.Block.Header.{encode_hashable}
use dusk_blockchain.Chain.Taken.{IsTaken, accept_block-IsTaken}
use dusk_blockchain.Verifiers.Block.Accepted.{IsNext}
use dusk_blockchain.Encoding.VarInt.{write_var_int}
use dusk_blockchain.Encoding.Codec.{write_each}
use dusk_blockchain.Encoding.VarData.{write_var_bytes}
use dusk_blockchain.Transactions.Slices.{write_slice}
use dusk_blockchain.Transactions.Locked.{encode_stake, encode_time_lock}
use dusk_blockchain.Wire.Messages.{encode_inv, add_item, encode_vect}

abbrev amount_of : Bytes → ℕ
amount_of bs = 50

abbrev wide_hash : Bytes → Bytes
wide_hash bs = replicate 32 1

abbrev bid_secret : Bytes → Bytes → Bytes
bid_secret commitment m = replicate 32 1

add_provisioner-decodes_example :
    (message : Bytes) × (add_provisioner amount_of bid_secret stake_tx 7
      ≡ some (new_provisioner message ∷ []))
    × (decode_new_provisioner message ≡ ok (announced stake_tx 50 7) [])
add_provisioner-decodes_example =
    add_provisioner-decodes amount_of bid_secret stake_tx 7 some_output [] refl refl (omega arith)
      (omega arith) (omega arith)

-- The candidates are the state of the database.
abbrev one_candidate : Database (List Block)
one_candidate = record {
  queries = λ db. Verifiers.chain;
  stored = λ db hash. not_found;
  store_block = λ db blk. some db;
  delete_candidate_blocks = λ db height. some [];
  store_candidate_block = λ db blk. some (blk ∷ db);
  fetch_candidate_block = λ db hash. elim db [ [] ↦ none | b ∷ bs ↦ some b ];
}

abbrev at_last_block : Chain (List Block)
at_last_block = record { db = []; prev_block = last_block; events = [] }

abbrev certified_next : Block
certified_next = record next_block {
  header = record next_block.header { tx_root = replicate 32 1; certificate = certified.0 };
}

abbrev two_calls : List Call
two_calls = candidate certified_next ∷ winning (replicate 32 4) ∷ []

run-IsAfter_example :
    IsAfter last_block
      (run unit_line lone wide_hash bid_secret one_candidate at_last_block two_calls).prev_block
run-IsAfter_example =
    run-IsAfter unit_line lone wide_hash bid_secret one_candidate at_last_block two_calls

certified_accepted :
    (accept_block unit_line lone wide_hash bid_secret one_candidate at_last_block certified_next).1
    ≡ done
unfolding certified check_block check_unseen check_block_header check_fields leb_int64 equal
    check_root set_root with_root tx_hash remembered calculate_hash tx_id new_tree make_leaves
    make_even build create_intermediate join check_after_header check_multi_coinbases
    check_coinbases type check_txs check_tx dusk_blockchain.Transactions.Transaction.standard_tx
    check_standard_tx has_duplicate_inputs has_duplicate_outputs has_duplicates duplicates_from
    check_double_spent check_rings check_keys check_images check_special_fields
    check_lock_time_valid verify_coinbase check_reward
    dusk_blockchain.Transactions.Coinbase.standard_tx reconstruct_apk reconstruct_rest unmarshal_pk
    minimal_bytes new_apk pkt h1 set_bytes value verify_signatures marshal_signable_vote
    write_uint64 write_uint8 write_256 write ◌>>◌ verify verify_points h0 provisioner_of
    add_provisioner add_consensus_node add_consensus_nodes announce store_checked accept_checked
    accept_block check_for_step check_signed check_block_certificate
    dusk_blockchain.Block.Body.encode encode_hashable dusk_blockchain.Block.Header.encode write_bls
    unmarshal_signature compress write_var_int write_each
    dusk_blockchain.Transactions.Transaction.encode dusk_blockchain.Transactions.Coinbase.encode
    write_var_bytes write_slice dusk_blockchain.Transactions.Output.encode encode_stake
    encode_time_lock dusk_blockchain.Transactions.Standard.encode
    dusk_blockchain.Transactions.Input.encode advertise_block encode_inv add_item encode_vect
    dusk_blockchain.Block.Certificate.encode
certified_accepted = refl

accept_block-IsTaken_example :
    (checked : Block) × (check_block wide_hash
        (one_candidate.stored [])
        Verifiers.chain
        last_block
        certified_next
      ≡ (none, checked))
    × IsNext last_block checked
    × IsTaken unit_line lone wide_hash bid_secret one_candidate at_last_block
        (accept_block unit_line lone wide_hash bid_secret one_candidate at_last_block
          certified_next).0
        checked
accept_block-IsTaken_example =
    accept_block-IsTaken unit_line lone wide_hash bid_secret one_candidate at_last_block
      certified_next certified_accepted
