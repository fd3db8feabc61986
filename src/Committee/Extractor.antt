-- ===== src/Committee/Extractor.antt =====
-- The Extractor of pkg/core/consensus/committee/store.go, a store with the voting committees drawn so far
-- in its round, and the committee of agreement.go, which packs votes into bits. The agreement and the
-- reduction committee take their members from it in the same way.
pub mod Packing
use dusk_blockchain.Base.{
  ℕ, ◌<◌, Bool, true, false, ltb, if◌then◌else◌, List, [], Option, none, some,
}
use dusk_blockchain.Base.Assoc.{nat_key, lookup, insert}
use dusk_blockchain.Encoding.Buffer.{Bytes}
use dusk_blockchain.SortedSet.{Set, set_bytes, index_of, bits, intersect}
use dusk_blockchain.Committee.Store.{Store, voting_size}
use dusk_blockchain.Committee.Sortition.{Draw, drawn, ◌>>=◌, create_voting_committee}

pub record Extractor (PublicKey : Type 0) : Type 0 where
  pub store : Store PublicKey
  pub round : ℕ
  pub committee_cache : List (ℕ × Set)

module _ {PublicKey : Type 0} where
  -- A later round empties the cache.
  unfoldable pub enter_round : Extractor PublicKey → ℕ → Extractor PublicKey
  enter_round e round =
      if ltb e.round round then record e { round = round; committee_cache = [] } else e

module _ {PublicKey : Type 0} (marshal : PublicKey → Bytes) (hash : Bytes → Option Bytes) where
  -- The committee of the step: the one in the cache, or a new one, which is put there.
  unfoldable pub cached_or_new : Extractor PublicKey → ℕ → ℕ → ℕ → Draw (Extractor PublicKey × Set)
  cached_or_new e round step wanted = elim (lookup step e.committee_cache) [
    | some c ↦ drawn (e, c)
    | none ↦ do
      c ←
          create_voting_committee marshal e.store.provisioners hash round e.store.total_weight step
            wanted
      drawn (record e { committee_cache = insert step c e.committee_cache }, c)
  ]

  unfoldable pub upsert_committee_cache :
      Extractor PublicKey → ℕ → ℕ → ℕ → Draw (Extractor PublicKey × Set)
  upsert_committee_cache e round step wanted = cached_or_new (enter_round e round) round step wanted

  -- The committee of `IsMember`, `Pack` and `Unpack`, of the size of the round.
  unfoldable pub voting_committee : Extractor PublicKey → ℕ → ℕ → Draw (Extractor PublicKey × Set)
  voting_committee e round step =
      let (s, wanted) = voting_size e.store round in
      upsert_committee_cache (record e { store = s }) round step wanted

  unfoldable pub is_member : Extractor PublicKey → Bytes → ℕ → ℕ → Draw (Extractor PublicKey × Bool)
  is_member e key round step = do
    ec ← voting_committee e round step
    drawn (ec.0, (index_of ec.1 (set_bytes key)).1)

  unfoldable pub pack : Extractor PublicKey → Set → ℕ → ℕ → Draw (Extractor PublicKey × ℕ)
  pack e set round step = do ec ← voting_committee e round step; drawn (ec.0, bits ec.1 set)

  unfoldable pub unpack : Extractor PublicKey → ℕ → ℕ → ℕ → Draw (Extractor PublicKey × Set)
  unpack e bitset round step = do
    ec ← voting_committee e round step
    drawn (ec.0, intersect ec.1 bitset)
