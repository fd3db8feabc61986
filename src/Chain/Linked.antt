-- ===== src/Chain/Linked.antt =====
-- The blocks that the chain takes, one after another, follow each other.
use dusk_blockchain.Base.{◌≡◌, refl, ◌⊎◌, inl, inr, List, [], ◌∷◌, ◌++◌, Option, none, some}
use dusk_blockchain.Encoding.Buffer.{Bytes, Outcome, ok, err}
use dusk_blockchain.Crypto.Bls.{Curve}
use dusk_blockchain.Agreement.Handler.{Foldable}
use dusk_blockchain.Block.Certificate.{Certificate}
use dusk_blockchain.Block.Body
use dusk_blockchain.Block.Body.{Block}
use dusk_blockchain.Verifiers.Faults.{Check}
use dusk_blockchain.Verifiers.Block.Accepted.{IsNext, check_block-IsNext}
use dusk_blockchain.Verifiers.Certificate.{check_block_certificate}
use dusk_blockchain.Chain.{
  Database, Event, Chain, advertise_block, add_consensus_nodes, clean_candidates, announce,
  store_checked, accept_checked, accept_block, on_accept_block, handle_winning_hash,
  add_certificate, handle_candidate_block,
}

-- The last block is reached from the first in steps to a next block.
pub data IsAfter (first : Block) : Block → Type 0 where
  here : IsAfter first first
  next : {last blk : Block} → IsAfter first last → IsNext last blk → IsAfter first blk

-- What the loop and the subscribers of the chain call.
pub data Call : Type 0 where
  candidate : Block → Call
  received winning : Bytes → Call
  certify : Bytes → Certificate → Call

module _ (c : Curve) (f : Foldable) (sha3_256 : Bytes → Bytes) (calculate_x : Bytes → Bytes → Bytes)
    {D : Type 0} (database : Database D) where
  unfoldable pub step : Chain D → Call → Chain D
  step chain (received m) = (on_accept_block c f sha3_256 calculate_x database chain m).0
  step chain (winning hash) = (handle_winning_hash c f sha3_256 calculate_x database chain hash).0
  step chain (candidate blk) = (handle_candidate_block database chain blk).0
  step chain (certify hash cert) = add_certificate c f sha3_256 calculate_x database chain hash cert

  unfoldable pub run : Chain D → List Call → Chain D
  run chain [] = chain
  run chain (call ∷ calls) = run (step chain call) calls

module _ {D : Type 0} (database : Database D) where
  pub clean_candidates-tip :
      (chain : Chain D) (blk : Block)
      → (clean_candidates database chain blk).prev_block ≡ chain.prev_block
  unfolding clean_candidates
  clean_candidates-tip chain blk =
      split (database.delete_candidate_blocks chain.db blk.header.height) refl
    where
      split :
          (o : Option D)
          → database.delete_candidate_blocks chain.db blk.header.height ≡ o
          → (clean_candidates database chain blk).prev_block ≡ chain.prev_block
      split none e = rw (e, clean_candidates)
      split (some db) e = rw (e, clean_candidates)

  handle_candidate_block-tip :
      (chain : Chain D) (blk : Block)
      → (handle_candidate_block database chain blk).0.prev_block ≡ chain.prev_block
  unfolding handle_candidate_block
  handle_candidate_block-tip chain blk = split (database.store_candidate_block chain.db blk) refl
    where
      split :
          (o : Option D)
          → database.store_candidate_block chain.db blk ≡ o
          → (handle_candidate_block database chain blk).0.prev_block ≡ chain.prev_block
      split none e = rw (e, handle_candidate_block)
      split (some db) e = rw (e, handle_candidate_block)

  announce-tip :
      (chain : Chain D) (blk : Block)
      → (announce database chain blk).0.prev_block ≡ chain.prev_block
  unfolding announce
  announce-tip chain blk = split (Body.encode blk []) refl
    where
      advertised :
          (o : Option Bytes) (bs : Bytes)
          → advertise_block blk.header.hash ≡ o
          → Body.encode blk [] ≡ ok tt bs
          → (announce database chain blk).0.prev_block ≡ chain.prev_block
      advertised none bs e k = rw (k, e, announce)
      advertised (some message) bs e k = rw (k, e, announce) (clean_candidates-tip chain blk)

      split :
          (o : Outcome (Unit {0}))
          → Body.encode blk [] ≡ o
          → (announce database chain blk).0.prev_block ≡ chain.prev_block
      split (err x bs) e = rw (e, announce)
      split (ok _ bs) e = advertised (advertise_block blk.header.hash) bs refl e

  store_checked-tip :
      (chain : Chain D) (blk : Block) (nodes : List Event)
      → ((store_checked database chain blk nodes).0.prev_block ≡ chain.prev_block)
        ⊎ ((store_checked database chain blk nodes).0.prev_block ≡ blk)
  unfolding store_checked
  store_checked-tip chain blk nodes = split (database.store_block chain.db blk) refl
    where
      split :
          (o : Option D)
          → database.store_block chain.db blk ≡ o
          → ((store_checked database chain blk nodes).0.prev_block ≡ chain.prev_block)
            ⊎ ((store_checked database chain blk nodes).0.prev_block ≡ blk)
      split none e = inl (rw (e, store_checked))
      split (some db) e = inr (
          rw (e, store_checked)
            (announce-tip
              (record chain { db = db; prev_block = blk; events = chain.events ++ nodes }) blk))

module _ (c : Curve) (f : Foldable) (sha3_256 : Bytes → Bytes) (calculate_x : Bytes → Bytes → Bytes)
    {D : Type 0} (database : Database D) where
  accept_checked-IsAfter :
      (first : Block) (chain : Chain D) (out : Check × Block)
      → (out.0 ≡ none → IsNext chain.prev_block out.1)
      → IsAfter first chain.prev_block
      → IsAfter first (accept_checked c f sha3_256 calculate_x database chain out).0.prev_block
  unfolding accept_checked
  accept_checked-IsAfter first chain (some e, blk) follows good = good
  accept_checked-IsAfter first chain (none, blk) follows good =
      certified (check_block_certificate c f blk) refl (follows refl)
    where
      nodes_of : Option (List Event)
      nodes_of =
          add_consensus_nodes ((database.queries chain.db).scalar) calculate_x blk.txs
            blk.header.height

      stored :
          (o : Option (List Event))
          → nodes_of ≡ o
          → check_block_certificate c f blk ≡ none
          → IsNext chain.prev_block blk
          → IsAfter first
              (accept_checked c f sha3_256 calculate_x database chain (none, blk)).0.prev_block
      stored none k e n = rw (e, k, accept_checked) good
      stored (some nodes) k e n =
          rw (e, k, accept_checked)
            (elim (store_checked-tip database chain blk nodes) [
              | inl kept ↦ rw kept good
              | inr taken ↦ rw taken (next good n)
            ])

      certified :
          (o : Check)
          → check_block_certificate c f blk ≡ o
          → IsNext chain.prev_block blk
          → IsAfter first
              (accept_checked c f sha3_256 calculate_x database chain (none, blk)).0.prev_block
      certified (some e) k n = rw (k, accept_checked) good
      certified none k n = stored nodes_of refl k n

  accept_block-IsAfter :
      (first : Block) (chain : Chain D) (blk : Block)
      → IsAfter first chain.prev_block
      → IsAfter first (accept_block c f sha3_256 calculate_x database chain blk).0.prev_block
  unfolding accept_block
  accept_block-IsAfter first chain blk good =
      accept_checked-IsAfter first chain _
        (check_block-IsNext sha3_256 (database.stored chain.db) (database.queries chain.db)
          chain.prev_block blk)
        good

  add_certificate-IsAfter :
      (first : Block) (chain : Chain D) (hash : Bytes) (cert : Certificate)
      → IsAfter first chain.prev_block
      → IsAfter first (add_certificate c f sha3_256 calculate_x database chain hash cert).prev_block
  unfolding add_certificate
  add_certificate-IsAfter first chain hash cert good =
      split (database.fetch_candidate_block chain.db hash) refl
    where
      split :
          (o : Option Block)
          → database.fetch_candidate_block chain.db hash ≡ o
          → IsAfter first
              (add_certificate c f sha3_256 calculate_x database chain hash cert).prev_block
      split none e = rw (e, add_certificate) good
      split (some b) e =
          rw (e, add_certificate)
            (accept_block-IsAfter first chain
              (record b { header = record b.header { certificate = cert } }) good)

  on_accept_block-IsAfter :
      (first : Block) (chain : Chain D) (m : Bytes)
      → IsAfter first chain.prev_block
      → IsAfter first (on_accept_block c f sha3_256 calculate_x database chain m).0.prev_block
  unfolding on_accept_block
  on_accept_block-IsAfter first chain m good = split (Body.decode m) refl
    where
      split :
          (o : Outcome Block)
          → Body.decode m ≡ o
          → IsAfter first (on_accept_block c f sha3_256 calculate_x database chain m).0.prev_block
      split (err e rest) k = rw (k, on_accept_block) good
      split (ok blk rest) k = rw (k, on_accept_block) (accept_block-IsAfter first chain blk good)

  handle_winning_hash-IsAfter :
      (first : Block) (chain : Chain D) (hash : Bytes)
      → IsAfter first chain.prev_block
      → IsAfter first
          (handle_winning_hash c f sha3_256 calculate_x database chain hash).0.prev_block
  unfolding handle_winning_hash
  handle_winning_hash-IsAfter first chain hash good =
      split (database.fetch_candidate_block chain.db hash) refl
    where
      split :
          (o : Option Block)
          → database.fetch_candidate_block chain.db hash ≡ o
          → IsAfter first
              (handle_winning_hash c f sha3_256 calculate_x database chain hash).0.prev_block
      split none k = rw (k, handle_winning_hash) good
      split (some b) k = rw (k, handle_winning_hash) (accept_block-IsAfter first chain b good)

  step-IsAfter :
      (first : Block) (chain : Chain D) (call : Call)
      → IsAfter first chain.prev_block
      → IsAfter first (step c f sha3_256 calculate_x database chain call).prev_block
  unfolding step
  step-IsAfter first chain (received m) good = on_accept_block-IsAfter first chain m good
  step-IsAfter first chain (winning hash) good = handle_winning_hash-IsAfter first chain hash good
  step-IsAfter first chain (candidate blk) good =
      rw (handle_candidate_block-tip database chain blk) good
  step-IsAfter first chain (certify hash cert) good =
      add_certificate-IsAfter first chain hash cert good

  from-IsAfter :
      (first : Block) (calls : List Call) (chain : Chain D)
      → IsAfter first chain.prev_block
      → IsAfter first (run c f sha3_256 calculate_x database chain calls).prev_block
  unfolding run
  from-IsAfter first [] chain good = good
  from-IsAfter first (call ∷ calls) chain good =
      from-IsAfter first calls (step c f sha3_256 calculate_x database chain call)
        (step-IsAfter first chain call good)

  -- Whatever blocks, candidates, winning hashes and certificates come, and in whatever order, the last
  -- block of the chain is reached from the block that it started with in steps to a block of version 0
  -- that has the hash of the one before as its previous hash, the next height as a uint64, and a later
  -- timestamp.
  pub run-IsAfter :
      (chain : Chain D) (calls : List Call)
      → IsAfter chain.prev_block (run c f sha3_256 calculate_x database chain calls).prev_block
  run-IsAfter chain calls = from-IsAfter chain.prev_block calls chain here
