-- ===== src/Tests/SortedSet.antt =====
-- pkg/util/nativeutils/sortedset at concrete sets.
use dusk_blockchain.Base.{ℕ, ◌≡◌, ◌↔◌, ◌++◌, some, none, refl, arith, true, List, [], ◌∷◌}
use dusk_blockchain.SortedSet.{
  Set, equal, search, index_of, insert, remove, bits, intersect, bits_loop,
}
use dusk_blockchain.SortedSet.Search.{has, rank, index_of_lem}
use dusk_blockchain.SortedSet.Update.{Inserted, Removed, insert_correct, remove_correct}
use dusk_blockchain.SortedSet.Equality.{Ascending, count, equal_lem}
use dusk_blockchain.SortedSet.Bitset.{Subset, intersect-bits}

abbrev keys : List ℕ
keys = 3 ∷ 5 ∷ 8 ∷ 13 ∷ []

finds_8 : index_of keys 8 ≡ (2, true)
unfolding index_of search
finds_8 = refl

inserts_6 : insert keys 6 ≡ (3 ∷ 5 ∷ 6 ∷ 8 ∷ 13 ∷ [], true)
unfolding insert index_of search
inserts_6 = refl

bits_5_13 : bits keys (5 ∷ 13 ∷ []) ≡ 10
unfolding bits bits_loop
bits_5_13 = refl

index_of_lem_example : index_of keys 6 ≡ (rank keys 6, has keys 6)
index_of_lem_example = index_of_lem keys 6 (omega arith)

insert_correct_example : Inserted keys 6 (insert keys 6).0 (insert keys 6).1
insert_correct_example = insert_correct keys 6 (omega arith)

remove_correct_example : Removed keys 8 (remove keys 8).0 (remove keys 8).1
remove_correct_example = remove_correct keys 8 (omega arith)

pair_in_keys : Subset (5 ∷ 13 ∷ []) keys
unfolding has
pair_in_keys j h = ground arith

intersect-bits_example : intersect keys (bits keys (5 ∷ 13 ∷ [])) ≡ 5 ∷ 13 ∷ []
intersect-bits_example =
    intersect-bits keys (5 ∷ 13 ∷ []) (omega arith) (omega arith) pair_in_keys (omega arith)

abbrev unsorted : Set
unsorted = 13 ∷ 3 ∷ 8 ∷ []

equal_lem_example :
    Ascending (equal (3 ∷ []) unsorted).1
    × ((k : ℕ) → count k (equal (3 ∷ []) unsorted).1 ≡ count k unsorted)
    × (((equal (3 ∷ []) unsorted).0 ≡ some true)
        ↔ ((rest : Set) × ((equal (3 ∷ []) unsorted).1 ≡ (3 ∷ []) ++ rest)))
    × ((k : ℕ) → (equal ((equal (3 ∷ []) unsorted).1 ++ (k ∷ [])) unsorted).0 ≡ none)
equal_lem_example = equal_lem (3 ∷ []) unsorted
