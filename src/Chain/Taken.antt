-- ===== src/Chain/Taken.antt =====
-- What has happened when AcceptBlock returns nil.
use dusk_blockchain.Base.{
  ◌⊎◌, inl, inr, ◌+◌, ◌%◌, ◌^◌, ◌≡◌, refl, ap, List, [], ◌∷◌, ◌++◌, Option, none, some,
}
use dusk_blockchain.Encoding.Buffer.{Bytes, Outcome, ok, err}
use dusk_blockchain.Crypto.Bls.{Curve}
use dusk_blockchain.Agreement.Handler.{Foldable}
use dusk_blockchain.Block.Body
use dusk_blockchain.Block.Body.{Block}
use dusk_blockchain.Verifiers.Faults.{Check}
use dusk_blockchain.Verifiers.Block.{check_block}
use dusk_blockchain.Verifiers.Block.Accepted.{IsNext, check_block-IsNext}
use dusk_blockchain.Verifiers.Certificate.{check_block_certificate}
use dusk_blockchain.Chain.{
  Database, Event, accepted_block, gossip, remove_expired_provisioners, Chain, done,
  advertise_block, clean_candidates, add_consensus_nodes, announce, store_checked, accept_checked,
  accept_block,
}
use dusk_blockchain.Chain.Linked.{clean_candidates-tip}

module _ {D : Type 0} (database : Database D) where
  -- The database is that with the block, but for candidates that were deleted. The subscribers are told of the block, the peers of its hash, and the committee of the next height.
  pub record IsAnnounced (chain after : Chain D) (blk : Block) : Type 0 where
    pub tip : after.prev_block ≡ chain.prev_block
    pub kept :
        (after.db ≡ chain.db)
        ⊎ (database.delete_candidate_blocks chain.db blk.header.height ≡ some after.db)
    pub encoded : Bytes
    pub encodes : Body.encode blk [] ≡ ok tt encoded
    pub inventory : Bytes
    pub advertises : advertise_block blk.header.hash ≡ some inventory
    pub told :
        after.events
        ≡ chain.events
          ++ (accepted_block encoded
              ∷ gossip inventory
              ∷ remove_expired_provisioners ((blk.header.height + 1) % 2 ^ 64)
              ∷ [])

  clean_candidates-kept :
      (chain : Chain D) (blk : Block)
      → ((clean_candidates database chain blk).db ≡ chain.db)
        ⊎ (database.delete_candidate_blocks chain.db blk.header.height
            ≡ some (clean_candidates database chain blk).db)
  unfolding clean_candidates
  clean_candidates-kept chain blk =
      split (database.delete_candidate_blocks chain.db blk.header.height) refl
    where
      split :
          (o : Option D)
          → database.delete_candidate_blocks chain.db blk.header.height ≡ o
          → ((clean_candidates database chain blk).db ≡ chain.db)
            ⊎ (database.delete_candidate_blocks chain.db blk.header.height
                ≡ some (clean_candidates database chain blk).db)
      split none e = inl (rw (e, clean_candidates))
      split (some db) e = inr (rw (clean_candidates, e))

  announce-IsAnnounced :
      (chain : Chain D) (blk : Block)
      → (announce database chain blk).1 ≡ done
      → IsAnnounced chain (announce database chain blk).0 blk
  unfolding announce
  announce-IsAnnounced chain blk h = split (Body.encode blk []) refl
    where
      advertised :
          (o : Option Bytes) (bs : Bytes)
          → advertise_block blk.header.hash ≡ o
          → Body.encode blk [] ≡ ok tt bs
          → IsAnnounced chain (announce database chain blk).0 blk
      advertised none bs e k = absurd (cc (rw (k, e, announce) at h))
      advertised (some message) bs e k = record {
        tip = rw (k, e, announce) (clean_candidates-tip database chain blk);
        kept = rw (k, e, announce) (clean_candidates-kept chain blk);
        encoded = bs;
        encodes = k;
        inventory = message;
        advertises = e;
        told = rw (k, e, announce);
      }

      split :
          (o : Outcome (Unit {0}))
          → Body.encode blk [] ≡ o
          → IsAnnounced chain (announce database chain blk).0 blk
      split (err x bs) e = absurd (cc (rw (e, announce) at h))
      split (ok _ bs) e = advertised (advertise_block blk.header.hash) bs refl e

  -- The block is stored, and is what is announced, behind its stakes and bids.
  pub record IsStored (chain after : Chain D) (blk : Block) (nodes : List Event) : Type 0 where
    pub db : D
    pub stored : database.store_block chain.db blk ≡ some db
    pub announced :
        IsAnnounced
          (record chain { db = db; prev_block = blk; events = chain.events ++ nodes })
          after
          blk

  store_checked-IsStored :
      (chain : Chain D) (blk : Block) (nodes : List Event)
      → (store_checked database chain blk nodes).1 ≡ done
      → IsStored chain (store_checked database chain blk nodes).0 blk nodes
  unfolding store_checked
  store_checked-IsStored chain blk nodes h = split (database.store_block chain.db blk) refl
    where
      split :
          (o : Option D)
          → database.store_block chain.db blk ≡ o
          → IsStored chain (store_checked database chain blk nodes).0 blk nodes
      split none e = absurd (cc (rw (e, store_checked) at h))
      split (some db) e = record {
        db = db;
        stored = e;
        announced =
            rw (e, store_checked)
              (announce-IsAnnounced
                (record chain { db = db; prev_block = blk; events = chain.events ++ nodes }) blk
                (rw (e, store_checked) at h));
      }

module _ (c : Curve) (f : Foldable) (sha3_256 : Bytes → Bytes) (calculate_x : Bytes → Bytes → Bytes)
    {D : Type 0} (database : Database D) where
  -- A block, as the checks leave it, that has passed them all.
  pub record IsTaken (chain after : Chain D) (blk : Block) : Type 0 where
    pub certified : check_block_certificate c f blk ≡ none
    pub nodes : List Event
    pub from_txs :
        add_consensus_nodes
          ((database.queries chain.db).scalar)
          calculate_x
          blk.txs
          blk.header.height
        ≡ some nodes
    pub stored : IsStored database chain after blk nodes

  accept_checked-IsTaken :
      (chain : Chain D) (out : Check × Block)
      → (accept_checked c f sha3_256 calculate_x database chain out).1 ≡ done
      → (out.0 ≡ none)
        × IsTaken chain (accept_checked c f sha3_256 calculate_x database chain out).0 out.1
  unfolding accept_checked
  accept_checked-IsTaken chain (some e, blk) h = cc
  accept_checked-IsTaken chain (none, blk) h =
      (refl, certified (check_block_certificate c f blk) refl)
    where
      nodes_of : Option (List Event)
      nodes_of =
          add_consensus_nodes ((database.queries chain.db).scalar) calculate_x blk.txs
            blk.header.height

      with_nodes :
          (o : Option (List Event))
          → nodes_of ≡ o
          → check_block_certificate c f blk ≡ none
          → IsTaken chain (accept_checked c f sha3_256 calculate_x database chain (none, blk)).0 blk
      with_nodes none k e = absurd (cc (rw (e, k, accept_checked) at h))
      with_nodes (some nodes) k e = record {
        certified = e;
        nodes = nodes;
        from_txs = k;
        stored =
            rw (e, k, accept_checked)
              (store_checked-IsStored database chain blk nodes (rw (e, k, accept_checked) at h));
      }

      certified :
          (o : Check)
          → check_block_certificate c f blk ≡ o
          → IsTaken chain (accept_checked c f sha3_256 calculate_x database chain (none, blk)).0 blk
      certified (some fault) k = absurd (cc (rw (k, accept_checked) at h))
      certified none k = with_nodes nodes_of refl k

  -- When AcceptBlock returns nil, the block that CheckBlock leaves follows the previous block, carries a
  -- certificate that passes, and is the last block of the chain, whose database is what StoreBlock made
  -- of it, less candidates that DeleteCandidateBlocks took out; and that it was announced:
  -- first its stakes and bids, then the block, its hash, and the height that the committee moves to.
  pub accept_block-IsTaken :
      (chain : Chain D) (blk : Block)
      → (accept_block c f sha3_256 calculate_x database chain blk).1 ≡ done
      → (checked : Block) × (check_block sha3_256
            (database.stored chain.db)
            (database.queries chain.db)
            chain.prev_block
            blk
          ≡ (none, checked))
        × IsNext chain.prev_block checked
        × IsTaken chain (accept_block c f sha3_256 calculate_x database chain blk).0 checked
  unfolding accept_block
  accept_block-IsTaken chain blk h =
      let out =
        check_block sha3_256 (database.stored chain.db) (database.queries chain.db) chain.prev_block
          blk in
      let (passed, taken) = accept_checked-IsTaken chain out h in
      (
        out.1,
        ap (λ e. (e, out.1)) passed,
        check_block-IsNext sha3_256 (database.stored chain.db) (database.queries chain.db)
            chain.prev_block blk passed,
        taken,
      )
