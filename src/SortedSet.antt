-- ===== src/SortedSet.antt =====
-- pkg/util/nativeutils/sortedset/sortedset.go: the set of BLS keys behind the provisioners and the
-- voting committees, an increasing slice of numbers. A key of bytes is its number, `SetBytes`.
pub mod Search
pub mod Update
pub mod Bitset
pub mod Equality
use Prim.Native.Nat.{bit_or, bit_and, compare, Ordering}
use mathlib.Core.List.{reverse}
use dusk_blockchain.Base.{
  ℕ, zero, suc, ◌+◌, ◌-◌, ◌*◌, ◌/◌, ◌^◌, ◌<◌, Bool, true, false, ◌||◌, not, ◌==◌, ltb, leb,
  if◌then◌else◌, List, [], ◌∷◌, ◌++◌, Option, none, some, length, get_elem?, get_or, take, drop,
}
use dusk_blockchain.Encoding.Buffer.{Bytes}
use dusk_blockchain.Encoding.Integers.{value}

abbrev pub Set : Type 0
Set = List ℕ

-- `new(big.Int).SetBytes(b)`, the highest byte first.
unfoldable pub set_bytes : Bytes → ℕ
set_bytes b = value (reverse b)

-- `sort.Search` over [i, j) with the closure of `indexOf`: it halves the range, and `found` is what
-- the probes so far have set it to. A range of `n` is empty after `n` rounds.
unfoldable pub search : ℕ → Set → ℕ → ℕ → ℕ → Bool → ℕ × Bool
search zero v k i j found = (i, found)
search (suc fuel) v k i j found = elim (ltb i j) [
  | false ↦ (i, found)
  | true ↦ elim (compare (get_or v ((i + j) / 2) 0) k) [
    | Ordering.lt ↦ search fuel v k (suc ((i + j) / 2)) j found
    | Ordering.eq ↦ search fuel v k i ((i + j) / 2) true
    | Ordering.gt ↦ search fuel v k i ((i + j) / 2) found
  ]
]

unfoldable pub index_of : Set → ℕ → ℕ × Bool
index_of v k = search (suc (length v)) v k 0 (length v) false

-- The set after the call, and what the call returns.
unfoldable pub insert : Set → ℕ → Set × Bool
insert v k =
    let (i, found) = index_of v k in
    if found then (v, false) else (take i v ++ (k ∷ drop i v), true)

unfoldable pub remove : Set → ℕ → Set × Bool
remove v k =
    let (i, found) = index_of v k in
    if found then (take i v ++ drop (suc i) v, true) else (v, false)

unfoldable pub put_sorted : ℕ → Set → Set
put_sorted k [] = k ∷ []
put_sorted k (x ∷ v) = let rest = put_sorted k v in if leb k x then k ∷ x ∷ v else x ∷ rest

-- sort.Sort by the order of numbers, of which only one result is possible.
unfoldable pub sort : Set → Set
sort [] = []
sort (x ∷ v) = put_sorted x (sort v)

-- The loop over the indices of `v`: `none` is the panic of an index out of range.
unfoldable pub equal_from : Set → Set → Option Bool
equal_from [] other = some true
equal_from (x ∷ v) [] = none
equal_from (x ∷ v) (y ∷ other) =
    let rest = equal_from v other in if x == y then rest else some false

-- `v.Equal(other)`, which sorts `other` in place, and what it leaves of `other`.
unfoldable pub equal : Set → Set → Option Bool × Set
equal v other = let sorted = sort other in (equal_from v sorted, sorted)

-- `1 << uint(i)` on a uint64.
abbrev pub shift_one : ℕ → ℕ
shift_one i = if ltb i 64 then 2 ^ i else 0

abbrev pub all : ℕ
all = 2 ^ 64 - 1

-- `for i := range v { ret |= 1 << uint(i) }`, from index `i` on.
unfoldable pub whole_loop : Set → ℕ → ℕ → ℕ
whole_loop [] i ret = ret
whole_loop (x ∷ v) i ret = whole_loop v (suc i) (bit_or ret (shift_one i))

unfoldable pub whole : Set → ℕ
whole v = whole_loop v 0 0

-- The elements whose bit is set, from index `i` on.
unfoldable pub select_loop : Set → ℕ → ℕ → Set
select_loop [] set i = []
select_loop (x ∷ v) set i =
    let rest = select_loop v set (suc i) in if bit_and (set / 2 ^ i) 1 == 0 then rest else x ∷ rest

unfoldable pub intersect : Set → ℕ → Set
intersect v set = if set == all || set == whole v then v else select_loop v set 0

-- The loop of `Bits`: `head` is looked for next, `subset` after it.
unfoldable pub bits_loop : Set → ℕ → Set → ℕ → ℕ → ℕ
bits_loop [] head subset i ret = ret
bits_loop (x ∷ v) head [] i ret =
    let rest = bits_loop v head [] (suc i) ret in
    if x == head then bit_or ret (shift_one i) else rest
bits_loop (x ∷ v) head (h ∷ subset) i ret =
    let hit = bits_loop v h subset (suc i) (bit_or ret (shift_one i)) in
    let miss = bits_loop v head (h ∷ subset) (suc i) ret in if x == head then hit else miss

unfoldable pub bits : Set → Set → ℕ
bits v [] = 0
bits v (head ∷ subset) = bits_loop v head subset 0 0
