-- ===== src/SortedSet/Equality.antt =====
-- Equal of sortedset.go, which looks at the indices of its receiver only.
use dusk_blockchain.Base.{
  ℕ, ◌≡◌, ◌↔◌, ◌∙◌, ◌≤◌, ◌+◌, All, All-map, leb, if◌then◌else◌, refl, ap, arith, Bool-cases, true,
  inl, inr, ◌==◌, [], ◌∷◌, ◌++◌, some, none,
}
use dusk_blockchain.SortedSet.{Set, sort, put_sorted, equal_from, equal}

equal_from_sound :
    (v other : Set) → equal_from v other ≡ some true → (rest : Set) × (other ≡ v ++ rest)
unfolding equal_from
equal_from_sound [] other h = (other, refl)
equal_from_sound (x ∷ v) [] h = absurd (ground arith)
equal_from_sound (x ∷ v) (y ∷ other) h = elim (Bool-cases (x == y)) [
  | inl same_head ↦
      let (rest, e) = equal_from_sound v other (ground arith) in
      let f : x ≡ y = ground arith in (rest, rw f (ap (λ t. y ∷ t) e))
  | inr apart ↦ absurd (ground arith)
]

equal_from_complete : (v rest : Set) → equal_from v (v ++ rest) ≡ some true
unfolding equal_from
equal_from_complete [] rest = refl
equal_from_complete (x ∷ v) rest =
    let e : (x == x) ≡ true = ground arith in rw (e, equal_from_complete v rest)

equal_from_panics : (w : Set) (k : ℕ) → equal_from (w ++ (k ∷ [])) w ≡ none
unfolding equal_from
equal_from_panics [] k = refl
equal_from_panics (x ∷ w) k =
    let e : (x == x) ≡ true = ground arith in rw (e, equal_from_panics w k)

-- The number of times that a key stands in a set.
pub count : ℕ → Set → ℕ
count k [] = 0
count k (x ∷ v) = (if x == k then 1 else 0) + count k v

-- No number is below the one in front of it.
pub Ascending : Set → Type 0
Ascending [] = Unit {0}
Ascending (x ∷ v) = All (λ y. x ≤ y) v × Ascending v

put_sorted-count :
    (k x : ℕ) (v : Set) → count k (put_sorted x v) ≡ (if x == k then 1 else 0) + count k v
unfolding count put_sorted
put_sorted-count k x [] = refl
put_sorted-count k x (y ∷ v) = elim (Bool-cases (leb x y)) [
  | inl low ↦ rw low
  | inr high ↦ rw high (omega (arith, put_sorted-count k x v))
]

put_sorted-All :
    (m x : ℕ) (v : Set) → m ≤ x → All (λ y. m ≤ y) v → All (λ y. m ≤ y) (put_sorted x v)
unfolding put_sorted
put_sorted-All m x [] h a = (h, tt)
put_sorted-All m x (y ∷ v) h (hy, a) = elim (Bool-cases (leb x y)) [
  | inl low ↦ rw low (h, (hy, a))
  | inr high ↦ rw high (hy, put_sorted-All m x v h a)
]

put_sorted-Ascending : (x : ℕ) (v : Set) → Ascending v → Ascending (put_sorted x v)
unfolding put_sorted Ascending
put_sorted-Ascending x [] a = (tt, tt)
put_sorted-Ascending x (y ∷ v) (hy, a) = elim (Bool-cases (leb x y)) [
  | inl low ↦
      let le : x ≤ y = ground arith in
      rw low ((le, All-map (λ z yz. omega (arith, le, yz)) v hy), (hy, a))
  | inr high ↦
      let le : y ≤ x = ground arith in
      rw high (put_sorted-All y x v le hy, put_sorted-Ascending x v a)
]

sort-count : (k : ℕ) (v : Set) → count k (sort v) ≡ count k v
unfolding sort count
sort-count k [] = refl
sort-count k (x ∷ v) = put_sorted-count k x (sort v) ∙ omega (arith, sort-count k v)

sort-Ascending : (v : Set) → Ascending (sort v)
unfolding sort Ascending
sort-Ascending [] = tt
sort-Ascending (x ∷ v) = put_sorted-Ascending x (sort v) (sort-Ascending v)

-- `Equal` leaves its argument sorted, with the same numbers as often as before; it holds when that
-- begins with the set, and of no other; and of a sorted argument with one number more behind it, it
-- panics.
pub equal_lem :
    (v other : Set)
    → Ascending (equal v other).1
      × ((k : ℕ) → count k (equal v other).1 ≡ count k other)
      × (((equal v other).0 ≡ some true) ↔ ((rest : Set) × ((equal v other).1 ≡ v ++ rest)))
      × ((k : ℕ) → (equal ((equal v other).1 ++ (k ∷ [])) other).0 ≡ none)
unfolding equal
equal_lem v other = (
  sort-Ascending other,
  λ k. sort-count k other,
  (equal_from_sound v (sort other), λ (rest, e). rw e (equal_from_complete v rest)),
  λ k. equal_from_panics (sort other) k,
)
