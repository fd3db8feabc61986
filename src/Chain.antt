-- ===== src/Chain.antt =====
-- pkg/core/chain/chain.go: the chain takes a block, and tells the other parts of the node.
pub mod Linked
pub mod Staked
pub mod Taken
use dusk_blockchain.Base.{
  ℕ, ◌+◌, ◌%◌, ◌^◌, ◌==◌, Bool, true, false, List, [], ◌∷◌, ◌++◌, Option, none, some, if◌then◌else◌,
}
use dusk_blockchain.Encoding.Buffer.{Bytes, M, Outcome, ok, err, pure, ◌>>=◌, ◌>>◌}
use dusk_blockchain.Encoding.Integers.{little_endian, write_uint64}
use dusk_blockchain.Encoding.MiscData.{read_256, write_256}
use dusk_blockchain.Encoding.VarData.{write_var_bytes}
use dusk_blockchain.Wire.Topics.{add_topic}
use dusk_blockchain.Wire.Messages.{encode_inv, add_item}
use dusk_blockchain.Crypto.Bls.{Curve}
use dusk_blockchain.Agreement.Handler.{Foldable}
use dusk_blockchain.Transactions.Output.{Output}
use dusk_blockchain.Transactions.Standard.{stake_type, bid_type}
use dusk_blockchain.Transactions.Locked.{Stake, Bid}
use dusk_blockchain.Transactions.Transaction.{Transaction, stake, bid, type}
use dusk_blockchain.Block.Certificate
use dusk_blockchain.Block.Certificate.{Certificate}
use dusk_blockchain.Block.Body
use dusk_blockchain.Block.Body.{Block}
use dusk_blockchain.Verifiers.Faults.{Fault, Check}
use dusk_blockchain.Verifiers.Transaction.{Queries}
use dusk_blockchain.Verifiers.Block.{Stored, check_block}
use dusk_blockchain.Verifiers.Certificate.{check_block_certificate}

-- What the chain asks of its database, where `none` is an error that changes nothing.
pub record Database (D : Type 0) : Type 0 where
  pub queries : D → Queries
  pub stored : D → Bytes → Stored
  pub store_block : D → Block → Option D
  pub delete_candidate_blocks : D → ℕ → Option D
  pub store_candidate_block : D → Block → Option D
  pub fetch_candidate_block : D → Bytes → Option Block

-- What the chain puts on the event bus, in order, and the call of its committee.
pub data Event : Type 0 where
  new_provisioner bid_list accepted_block gossip : Bytes → Event
  remove_expired_provisioners : ℕ → Event

pub record Chain (D : Type 0) : Type 0 where
  pub db : D
  pub prev_block : Block
  pub events : List Event

-- How `AcceptBlock` ends: with nil, with an error, or with a panic on what the checks should rule out.
pub data Accepted : Type 0 where
  done no_certificate not_stored not_encoded not_decoded no_candidate panics : Accepted
  invalid : Fault → Accepted

-- What the bytes of a writer are, on a buffer that holds some.
unfoldable pub written : M (Unit {0}) → Bytes → Option Bytes
written w buf = elim (w buf) [ ok _ bs ↦ some bs | err e bs ↦ none ]

-- The stake's message, behind its key, in whose buffer the rest is written.
unfoldable pub encode_provisioner : Bytes → ℕ → ℕ → ℕ → M (Unit {0})
encode_provisioner pub_key_bls amount start_height lock = do
  write_var_bytes pub_key_bls
  write_uint64 little_endian amount
  write_uint64 little_endian start_height
  write_uint64 little_endian ((start_height + lock) % 2 ^ 64)

-- A message that cannot be written is an error, which is only logged.
unfoldable pub publish_provisioner : Option Bytes → List Event
publish_provisioner none = []
publish_provisioner (some message) = new_provisioner message ∷ []

-- `scalar` gives the low 64 bits of an encrypted amount, and `calculate_x` is user.CalculateX, of a
-- commitment and the secret's hash.
module _ (scalar : Bytes → ℕ) (calculate_x : Bytes → Bytes → Bytes) where
  -- The first output is there, or the call panics: `none`.
  unfoldable pub provisioner_of : Stake → ℕ → List Output → Option (List Event)
  provisioner_of tx start_height [] = none
  provisioner_of tx start_height (o ∷ os) = some (
      publish_provisioner (
        written
          (encode_provisioner tx.pub_key_bls (scalar o.encrypted_amount) start_height
            tx.time_lock.lock)
          tx.pub_key_ed))

  unfoldable pub add_provisioner : Stake → ℕ → Option (List Event)
  add_provisioner tx start_height = provisioner_of tx start_height tx.time_lock.standard.outputs

  unfoldable pub add_bidder : Bid → ℕ → Option (List Event)
  add_bidder tx start_height = from_outputs tx.time_lock.standard.outputs
    where
      from_outputs : List Output → Option (List Event)
      from_outputs [] = none
      from_outputs (o ∷ os) =
          elim (written
            (write_256 (calculate_x o.commitment tx.m)
              >> write_uint64 little_endian ((start_height + tx.time_lock.lock) % 2 ^ 64))
            []) [ none ↦ none | some message ↦ some (bid_list message ∷ []) ]

  -- The switch on the type, which asserts the struct: another one panics.
  unfoldable pub add_consensus_node : Transaction → ℕ → Option (List Event)
  add_consensus_node (stake tx) start_height =
      if type (stake tx) == stake_type
      then add_provisioner tx start_height
      else if type (stake tx) == bid_type
      then none
      else some []
  add_consensus_node (bid tx) start_height =
      if type (bid tx) == stake_type
      then none
      else if type (bid tx) == bid_type
      then add_bidder tx start_height
      else some []
  add_consensus_node tx start_height =
      if type tx == stake_type then none else if type tx == bid_type then none else some []

  unfoldable pub add_consensus_nodes : List Transaction → ℕ → Option (List Event)
  add_consensus_nodes [] start_height = some []
  add_consensus_nodes (tx ∷ txs) start_height = elim (add_consensus_node tx start_height) [
    | none ↦ none
    | some es ↦ elim (add_consensus_nodes txs start_height) [
      | none ↦ none
      | some more ↦ some (es ++ more)
    ]
  ]

unfoldable pub propagate_block : Block → Option Bytes
propagate_block blk = elim (Body.encode blk []) [
  | ok _ bs ↦ some (add_topic bs (0x62 ∷ 0x6c ∷ 0x6f ∷ 0x63 ∷ 0x6b ∷ []))
  | err e bs ↦ none
]

-- The hash and the certificate that the collector sends on.
unfoldable pub collect_certificate : M (Bytes × Certificate)
collect_certificate = do hash ← read_256; cert ← Certificate.decode; pure (hash, cert)

-- The inventory of one block, of type 1, behind the topic `inv`.
unfoldable pub advertise_block : Bytes → Option Bytes
advertise_block hash = elim (encode_inv (add_item [] 1 hash) []) [
  | ok _ msg ↦ some (add_topic msg (0x69 ∷ 0x6e ∷ 0x76 ∷ []))
  | err e msg ↦ none
]

module _ {D : Type 0} (database : Database D) where
  -- The steps behind the advertisement; an error of the database is only logged.
  unfoldable pub clean_candidates : Chain D → Block → Chain D
  clean_candidates chain blk = elim (database.delete_candidate_blocks chain.db blk.header.height) [
    | none ↦ chain
    | some db ↦ record chain { db = db }
  ]

  unfoldable pub announce : Chain D → Block → Chain D × Accepted
  announce chain blk = elim (Body.encode blk []) [
    | err e bs ↦ (chain, not_encoded)
    | ok _ bs ↦ elim (advertise_block blk.header.hash) [
      | none ↦ (record chain { events = chain.events ++ (accepted_block bs ∷ []) }, panics)
      | some message ↦
          let cleaned = clean_candidates chain blk in
          (
            record cleaned {
              events =
                  chain.events
                  ++ (accepted_block bs
                      ∷ gossip message
                      ∷ remove_expired_provisioners ((blk.header.height + 1) % 2 ^ 64)
                      ∷ []);
            },
            done,
          )
    ]
  ]

  unfoldable pub store_checked : Chain D → Block → List Event → Chain D × Accepted
  store_checked chain blk nodes = elim (database.store_block chain.db blk) [
    | none ↦ (record chain { events = chain.events ++ nodes }, not_stored)
    | some db ↦
        announce (record chain { db = db; prev_block = blk; events = chain.events ++ nodes }) blk
  ]

  unfoldable pub handle_candidate_block : Chain D → Block → Chain D × Bool
  handle_candidate_block chain candidate =
      elim (database.store_candidate_block chain.db candidate) [
        | none ↦ (chain, false)
        | some db ↦ (record chain { db = db }, true)
      ]

module _ (c : Curve) (f : Foldable) (sha3_256 : Bytes → Bytes) (calculate_x : Bytes → Bytes → Bytes)
    {D : Type 0} (database : Database D) where
  unfoldable pub accept_checked : Chain D → Check × Block → Chain D × Accepted
  accept_checked chain (some e, blk) = (chain, invalid e)
  accept_checked chain (none, blk) = elim (check_block_certificate c f blk) [
    | some e ↦ (chain, no_certificate)
    | none ↦
        elim (add_consensus_nodes ((database.queries chain.db).scalar) calculate_x blk.txs
          blk.header.height) [
            | none ↦ (chain, panics)
            | some nodes ↦ store_checked database chain blk nodes
          ]
  ]

  unfoldable pub accept_block : Chain D → Block → Chain D × Accepted
  accept_block chain blk = accept_checked chain (
      check_block sha3_256 (database.stored chain.db) (database.queries chain.db) chain.prev_block
        blk)

  unfoldable pub on_accept_block : Chain D → Bytes → Chain D × Accepted
  on_accept_block chain m = elim (Body.decode m) [
    | err e rest ↦ (chain, not_decoded)
    | ok blk rest ↦ accept_block chain blk
  ]

  unfoldable pub handle_winning_hash : Chain D → Bytes → Chain D × Accepted
  handle_winning_hash chain block_hash = elim (database.fetch_candidate_block chain.db block_hash) [
    | none ↦ (chain, no_candidate)
    | some candidate ↦ accept_block chain candidate
  ]

  -- A certificate for a candidate that is not there is only logged.
  unfoldable pub add_certificate : Chain D → Bytes → Certificate → Chain D
  add_certificate chain block_hash cert =
      elim (database.fetch_candidate_block chain.db block_hash) [
        | none ↦ chain
        | some candidate ↦
            (accept_block chain
              (record candidate { header = record candidate.header { certificate = cert } })).0
      ]

  -- `none` is that the candidate is not there.
  unfoldable pub verify_candidate_block : Chain D → Bytes → Option Check
  verify_candidate_block chain hash = elim (database.fetch_candidate_block chain.db hash) [
    | none ↦ none
    | some candidate ↦
        some
          (check_block sha3_256 (database.stored chain.db) (database.queries chain.db)
            chain.prev_block candidate).0
  ]
