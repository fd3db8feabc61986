-- ===== src/Tests/Sortition.antt =====
-- A committee drawn from one provisioner, and votes packed by a committee of three.
use dusk_blockchain.Base.{
  ℕ, ◌≡◌, refl, arith, true, ◌==◌, Bool-cases, inl, inr, [], ◌∷◌, some, length,
}
use dusk_blockchain.Base.Assoc.{nat_key, lookup, insert}
use dusk_blockchain.Encoding.Buffer.{Bytes, bytes_key, equal, equal→eq, equal_refl}
use dusk_blockchain.SortedSet.{Set, set_bytes, bits}
use dusk_blockchain.SortedSet.Search.{Increasing, has}
use dusk_blockchain.SortedSet.Bitset.{Subset}
use dusk_blockchain.Committee.Provisioners.{
  Member, Provisioners, size, members_at, count_active, is_active,
}
use dusk_blockchain.Committee.Provisioners.Consistent.{IsKey, Consistent}
use dusk_blockchain.Committee.Store.{voting_size}
use dusk_blockchain.Committee.Sortition.{drawn, create_voting_committee}
use dusk_blockchain.Committee.Sortition.Election.{Staffed, create_voting_committee_ends}
use dusk_blockchain.Committee.Extractor.{
  Extractor, voting_committee, upsert_committee_cache, enter_round, cached_or_new, pack, unpack,
}
use dusk_blockchain.Committee.Extractor.Packing.{pack-unpack}
use dusk_blockchain.Tests.Committee.{key, AllBytes-replicate}

abbrev staker : Member Bytes
staker = record {
  public_key_ed = [];
  public_key_bls = key;
  stakes = record { amount = 500; start_height = 3; end_height = 20 } ∷ [];
}

abbrev one_staker : Provisioners Bytes
one_staker = record { set = set_bytes key ∷ []; members = (key, staker) ∷ []; size_cache = [] }

one_staker-keyed :
    (k : Bytes) (m : Member Bytes)
    → lookup k one_staker.members ≡ some m
    → IsKey k × (has one_staker.set (set_bytes k) ≡ true)
unfolding lookup has
one_staker-keyed k m h = elim (Bool-cases (equal key k)) [
  | inl here ↦
      let q : (set_bytes key == set_bytes key) ≡ true = ground arith in
      rw (← equal→eq key k here) ((refl, AllBytes-replicate 129 2 (omega arith)), rw q)
  | inr off ↦ absurd (ground arith)
]

one_staker-Consistent : Consistent one_staker.set one_staker.members
unfolding lookup
one_staker-Consistent = record {
  unique = (refl, tt);
  increasing = (tt, tt);
  keyed = one_staker-keyed;
}

one_staker-Staffed : (k : ℕ) → has one_staker.set k ≡ true → Staffed (λ pk. pk) one_staker k
unfolding has lookup
one_staker-Staffed k h = record {
  key = key;
  member = staker;
  there = rw (equal_refl key);
  number = ground arith;
  marshals = refl;
  full_width = omega arith;
  positive = omega arith;
}

one_staker-size : (size one_staker 5).1 ≡ 1
unfolding size members_at count_active is_active lookup
one_staker-size = refl

create_voting_committee_ends_example :
    (committee : Set) × (create_voting_committee (λ pk. pk) one_staker (λ m. some m) 5 500 1 1
      ≡ drawn committee)
    × (length committee ≡ 1)
    × Increasing committee
    × Subset committee one_staker.set
create_voting_committee_ends_example =
    create_voting_committee_ends (λ pk. pk) (λ m. some m) one_staker 5 500 1 1 one_staker-Consistent
      one_staker-Staffed (λ m. (m, refl)) (omega arith) (omega (arith, one_staker-size))
      (omega (arith, one_staker-size))

abbrev three : Extractor Bytes
three = record {
  store = record { provisioners = one_staker; total_weight = 500 };
  round = 5;
  committee_cache = (2, 3 ∷ 5 ∷ 8 ∷ []) ∷ [];
}

abbrev sized : Extractor Bytes
sized = record three {
  store = record {
    provisioners = record one_staker { size_cache = (5, 1) ∷ [] };
    total_weight = 500;
  };
}

takes_cached : voting_committee (λ pk. pk) (λ m. some m) three 5 2 ≡ drawn (sized, 3 ∷ 5 ∷ 8 ∷ [])
unfolding voting_committee upsert_committee_cache enter_round cached_or_new voting_size size
    members_at count_active is_active lookup insert
takes_cached = refl

five_in_three : Subset (5 ∷ []) (3 ∷ 5 ∷ 8 ∷ [])
unfolding has
five_in_three j h = ground arith

pack-unpack_example :
    (pack (λ pk. pk) (λ m. some m) three (5 ∷ []) 5 2
      ≡ drawn (sized, bits (3 ∷ 5 ∷ 8 ∷ []) (5 ∷ [])))
    × (unpack (λ pk. pk) (λ m. some m) sized (bits (3 ∷ 5 ∷ 8 ∷ []) (5 ∷ [])) 5 2
        ≡ drawn (sized, 5 ∷ []))
pack-unpack_example =
    pack-unpack (λ pk. pk) (λ m. some m) three sized 5 2 (3 ∷ 5 ∷ 8 ∷ []) (5 ∷ []) takes_cached
      (omega arith) (omega arith) (omega arith) five_in_three
