-- ===== src/Tests/Verifiers.antt =====
-- Concrete runs of pkg/core/verifiers.
use dusk_blockchain.Base.{
  ◌≡◌, ◌≢◌, ◌≤◌, refl, arith, true, false, [], ◌∷◌, replicate, none, some, All,
}
use dusk_blockchain.Encoding.Buffer.{Bytes, equal, write, ◌>>◌}
use dusk_blockchain.Encoding.Integers.{write_uint64, write_uint8, put_uint, digits, value}
use dusk_blockchain.Encoding.MiscData.{write_256, write_sized}
use dusk_blockchain.SortedSet.{set_bytes}
use dusk_blockchain.Crypto.Bls.{
  Curve, Signature, verified, unmarshal_pk, new_apk, pkt, h1, h0, marshal_pk, verify, verify_points,
  compress, unmarshal_signature,
}
use dusk_blockchain.Committee.Sortition.{minimal_bytes, significant}
use dusk_blockchain.Consensus.Header.{marshal_signable_vote}
use dusk_blockchain.Agreement.Event.{StepVotes, Agreement}
use dusk_blockchain.Agreement.Handler.{
  Foldable, slot_step, reconstruct_apk, reconstruct_rest, verify_signatures, check_votes,
  verify_slots, verify_agreement,
}
use dusk_blockchain.Block.Certificate.{Certificate}
use dusk_blockchain.Verifiers.Certificate.{
  certificate_of, generate_certificate, check_block_certificate, generate_certificate-check,
}
use dusk_blockchain.Crypto.Merkle.{
  new_tree, make_leaves, make_even, build, create_intermediate, join,
}
use dusk_blockchain.Transactions.Standard.{coinbase_type}
use dusk_blockchain.Transactions.Coinbase
use dusk_blockchain.Transactions.Duplicates.{
  has_duplicate_inputs, has_duplicate_outputs, has_duplicates, duplicates_from, equal_at,
}
use dusk_blockchain.Transactions.Transaction.{
  Transaction, stake, coinbase, standard_tx, type, tx_id, calculate_hash,
}
use dusk_blockchain.Block.Body.{Block}
use dusk_blockchain.Block.Root.{set_root, with_root, tx_hash, remembered}
use dusk_blockchain.Verifiers.Transaction.{
  Queries, generator_reward, max_lock_time, check_tx, forgiven, check_standard_tx,
  check_special_fields, check_lock_time_valid, verify_coinbase, check_reward, check_double_spent,
  check_rings, check_keys, check_images,
}
use dusk_blockchain.Verifiers.Transaction.Accepted.{IsPayable, lock, check_tx-IsPayable}
use dusk_blockchain.Verifiers.Block.{
  leb_int64, check_root, check_fields, check_block_header, check_coinbases, check_multi_coinbases,
  check_txs, Stored, not_found, check_unseen, check_after_header, check_block,
}
use dusk_blockchain.Verifiers.Block.Accepted.{IsTyped, IsAccepted, check_block-IsAccepted}
use dusk_blockchain.Tests.Crypto.{line}
use dusk_blockchain.Tests.Transactions.{coinbase_tx, stake_tx, small_block}

abbrev pub chain : Queries
chain = record {
  output_exists = λ key. some true;
  key_image_known = λ image. false;
  ring_keys = λ signature. some (signature ∷ []);
  scalar = λ amount. generator_reward;
}

stake_passes : check_tx chain 1 1000 (stake stake_tx) ≡ none
unfolding check_tx forgiven standard_tx check_standard_tx has_duplicate_inputs has_duplicate_outputs
    has_duplicates duplicates_from equal_at check_double_spent check_rings check_keys check_images
    check_special_fields check_lock_time_valid
stake_passes = refl

is_stake : type (stake stake_tx) ≢ coinbase_type
unfolding type
is_stake = λ e. omega arith

check_tx-IsPayable_example :
    IsPayable chain (standard_tx (stake stake_tx)) × (lock (stake stake_tx) ≤ max_lock_time)
check_tx-IsPayable_example = check_tx-IsPayable chain 1 1000 (stake stake_tx) is_stake stake_passes

abbrev pub one_hash : Bytes → Bytes
one_hash bs = 1 ∷ []

abbrev hashed_coinbase : Transaction
hashed_coinbase = coinbase (record coinbase_tx { tx_id = 2 ∷ [] })

abbrev pub last_block : Block
last_block = record small_block {
  header = record small_block.header { height = 6; timestamp = 900; hash = replicate 32 1 };
}

abbrev pub next_block : Block
next_block = record small_block {
  header = record small_block.header { tx_root = 1 ∷ [] };
  txs = hashed_coinbase ∷ stake stake_tx ∷ [];
}

abbrev unseen : Bytes → Stored
unseen hash = not_found

block_passes : (check_block one_hash unseen chain last_block next_block).0 ≡ none
unfolding check_block check_unseen check_block_header check_fields leb_int64 equal check_root
    set_root with_root tx_hash remembered calculate_hash tx_id new_tree make_leaves make_even build
    create_intermediate join check_after_header check_multi_coinbases check_coinbases type check_txs
    check_tx forgiven standard_tx check_standard_tx has_duplicate_inputs has_duplicate_outputs
    has_duplicates duplicates_from equal_at check_double_spent check_rings check_keys check_images
    check_special_fields check_lock_time_valid verify_coinbase check_reward
    dusk_blockchain.Transactions.Coinbase.standard_tx
block_passes = refl

block-IsTyped : All IsTyped next_block.txs
unfolding IsTyped type
block-IsTyped = (tt, (is_stake, tt))

check_block-IsAccepted_example :
    IsAccepted one_hash unseen chain last_block next_block
      (check_block one_hash unseen chain last_block next_block).1
check_block-IsAccepted_example =
    check_block-IsAccepted one_hash unseen chain last_block next_block block-IsTyped block_passes

-- A curve on which every hash is 1, and a committee of one member.
abbrev pub unit_line : Curve
unit_line = record line { sum256 = λ b. 1 ∷ [] }

abbrev pub lone : Foldable
lone = record {
  quorum = λ round. 2;
  pack = λ set round step. 1;
  unpack = λ bits round step. 3 ∷ [];
}

abbrev lone_vote : StepVotes unit_line
lone_vote = record {
  apk = new_apk unit_line (record { gx = 3 });
  bit_set = 1;
  signature = record { e = 1 };
  step = 0;
}

abbrev lone_agreement : Agreement unit_line
lone_agreement = record {
  header = record { pub_key_bls = 3 ∷ []; round = 7; step = 1; block_hash = replicate 32 4 };
  signed_votes = [];
  votes_per_step = some lone_vote ∷ some lone_vote ∷ [];
}

lone_agreement_verified : verify_agreement unit_line lone lone_agreement ≡ verified
unfolding verify_agreement verify_slots check_votes reconstruct_apk reconstruct_rest unmarshal_pk
    minimal_bytes significant new_apk pkt h1 marshal_pk set_bytes value verify_signatures
    marshal_signable_vote write_uint64 write_uint8 write_256 slot_step write put_uint digits
    write_sized ◌>>◌ dusk_blockchain.Encoding.Buffer.◌>>=◌ verify verify_points h0 equal
lone_agreement_verified = refl

unit_line-Compresses :
    (s : Signature unit_line) → unmarshal_signature unit_line (compress unit_line s) ≡ some s
unfolding unmarshal_signature compress
unit_line-Compresses s = refl

unfoldable pub certified :
    (cert : Certificate) × (generate_certificate unit_line lone_agreement ≡ some cert)
unfolding generate_certificate certificate_of
certified = (_, refl)

abbrev certified_block : Block
certified_block = record small_block {
  header = record small_block.header { certificate = certified.0 };
}

generate_certificate-check_example : check_block_certificate unit_line lone certified_block ≡ none
generate_certificate-check_example =
    generate_certificate-check unit_line lone lone_agreement lone_vote lone_vote certified.0
      certified_block unit_line-Compresses refl lone_agreement_verified certified.1 refl refl refl
