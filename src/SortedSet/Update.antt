-- ===== src/SortedSet/Update.antt =====
-- Insert and Remove of sortedset.go against membership: they keep the slice increasing, change the
-- membership of their key only, and say whether they changed anything.
use dusk_blockchain.Base.{
  ℕ, suc, ◌≡◌, ◌<◌, refl, ap, ◌∙◌, arith, Bool, true, false, ◌||◌, ◌&&◌, not, ◌==◌, ltb,
  if◌then◌else◌, Bool-cases, compare-cases, less, same, more, subst, sym, inl, inr, [], ◌∷◌, ◌++◌,
  length, take, drop,
}
use mathlib.Core.Path.{ap₂}
use dusk_blockchain.SortedSet.{Set, insert, remove}
use dusk_blockchain.SortedSet.Search.{Under, Increasing, has, rank, index_of_lem}

-- The slice with the key put before the first element that is not smaller, and with the element at
-- the key's place left out.
abbrev put_at_rank : Set → ℕ → Set
put_at_rank v k = take (rank v k) v ++ (k ∷ drop (rank v k) v)

abbrev drop_at_rank : Set → ℕ → Set
drop_at_rank v k = take (rank v k) v ++ drop (suc (rank v k)) v

insert_lem :
    (v : Set) (k : ℕ)
    → Increasing v
    → insert v k ≡ (if has v k then (v, false) else (put_at_rank v k, true))
unfolding insert
insert_lem v k s = rw (index_of_lem v k s)

remove_lem :
    (v : Set) (k : ℕ)
    → Increasing v
    → remove v k ≡ (if has v k then (drop_at_rank v k, true) else (v, false))
unfolding remove
remove_lem v k s = rw (index_of_lem v k s)

pub has_above : (x : ℕ) (v : Set) → Under x v → Increasing v → has v x ≡ false
unfolding has
has_above x [] u s = refl
has_above x (y ∷ []) u s = ground arith
has_above x (y ∷ z ∷ v) u s = ground (arith, has_above x (z ∷ v) (omega arith) s.1)

Under-put : (x : ℕ) (v : Set) (k : ℕ) → Under x v → x < k → Under x (put_at_rank v k)
unfolding rank
Under-put x [] k u lt = lt
Under-put x (y ∷ v) k u lt = ground arith

put_at_rank-Increasing :
    (v : Set) (k : ℕ) → Increasing v → has v k ≡ false → Increasing (put_at_rank v k)
unfolding has rank
put_at_rank-Increasing [] k s e = (tt, tt)
put_at_rank-Increasing (x ∷ v) k s e = elim (Bool-cases (ltb x k)) [
  | inl small ↦
      rw small (Under-put x v k s.0 (ground arith), put_at_rank-Increasing v k s.1 (ground arith))
  | inr big ↦ rw big (ground arith, s)
]

has-put_at_rank : (v : Set) (k j : ℕ) → has (put_at_rank v k) j ≡ (k == j || has v j)
unfolding has rank
has-put_at_rank [] k j = refl
has-put_at_rank (x ∷ v) k j = ground (arith, has-put_at_rank v k j)

Under-drop : (x : ℕ) (v : Set) (k : ℕ) → Under x v → Increasing v → Under x (drop_at_rank v k)
unfolding rank
Under-drop x [] k u s = tt
Under-drop x (y ∷ []) k u s = ground arith
Under-drop x (y ∷ z ∷ v) k u s = ground arith

drop_at_rank-Increasing : (v : Set) (k : ℕ) → Increasing v → Increasing (drop_at_rank v k)
unfolding rank
drop_at_rank-Increasing [] k s = tt
drop_at_rank-Increasing (x ∷ v) k s = elim (Bool-cases (ltb x k)) [
  | inl small ↦ rw small (Under-drop x v k s.0 s.1, drop_at_rank-Increasing v k s.1)
  | inr big ↦ rw big s.1
]

has-drop_at_rank :
    (v : Set) (k j : ℕ)
    → Increasing v
    → has v k ≡ true
    → has (drop_at_rank v k) j ≡ (not (k == j) && has v j)
unfolding has rank
has-drop_at_rank [] k j s e = cc
has-drop_at_rank (x ∷ v) k j s e = elim (Bool-cases (ltb x k)) [
  | inl small ↦ rw small (ground (arith, has-drop_at_rank v k j s.1))
  | inr big ↦ elim (compare-cases k x) [
    | less _ h ↦ cc (has_above k (x ∷ v) h s)
    | same _ h ↦ rw big (ground (arith, has_above x v s.0 s.1))
    | more _ h ↦ absurd (ground arith)
  ]
]

length-put_at_rank : (v : Set) (k : ℕ) → length (put_at_rank v k) ≡ suc (length v)
unfolding rank
length-put_at_rank [] k = refl
length-put_at_rank (x ∷ v) k = ground (arith, length-put_at_rank v k)

length-drop_at_rank :
    (v : Set) (k : ℕ) → Increasing v → has v k ≡ true → suc (length (drop_at_rank v k)) ≡ length v
unfolding rank has
length-drop_at_rank [] k s e = cc
length-drop_at_rank (x ∷ v) k s e = elim (Bool-cases (ltb x k)) [
  | inl small ↦ rw small (ap suc (length-drop_at_rank v k s.1 (ground arith)))
  | inr big ↦ rw big refl
]

-- What an insertion of `k` that ends in the set `w` and the answer `b` promises.
pub record Inserted (v : Set) (k : ℕ) (w : Set) (b : Bool) : Type 0 where
  pub increasing : Increasing w
  pub members : (j : ℕ) → has w j ≡ (k == j || has v j)
  pub answer : b ≡ not (has v k)
  pub count : length w ≡ (if b then suc (length v) else length v)

pub record Removed (v : Set) (k : ℕ) (w : Set) (b : Bool) : Type 0 where
  pub increasing : Increasing w
  pub members : (j : ℕ) → has w j ≡ (not (k == j) && has v j)
  pub answer : b ≡ has v k
  pub count : length v ≡ (if b then suc (length w) else length w)

has_member : (v : Set) (k j : ℕ) → has v k ≡ true → has v j ≡ (k == j || has v j)
has_member v k j e = elim (Bool-cases (k == j)) [
  | inl here ↦ let same : k ≡ j = ground arith in rw here (subst (λ i. has v i ≡ true) same e)
  | inr other ↦ rw other
]

not_member : (v : Set) (k j : ℕ) → has v k ≡ false → has v j ≡ (not (k == j) && has v j)
not_member v k j e = elim (Bool-cases (k == j)) [
  | inl here ↦ let same : k ≡ j = ground arith in rw here (subst (λ i. has v i ≡ false) same e)
  | inr other ↦ rw other
]

-- After an insertion the slice is increasing, it has the new key and what it had, and the call
-- returned whether the key is new.
pub insert_correct : (v : Set) (k : ℕ) → Increasing v → Inserted v k (insert v k).0 (insert v k).1
insert_correct v k s = rw (insert_lem v k s) (elim (Bool-cases (has v k)) [
  | inl old ↦ rw old (record {
    increasing = s;
    members = λ j. has_member v k j old;
    answer = rw old;
    count = refl;
  })
  | inr new ↦ rw new (record {
    increasing = put_at_rank-Increasing v k s new;
    members = has-put_at_rank v k;
    answer = rw new;
    count = length-put_at_rank v k;
  })
])

-- A new key is put somewhere into the slice.
pub insert_new :
    (v : Set) (k : ℕ)
    → Increasing v
    → has v k ≡ false
    → (i : ℕ) × ((insert v k).0 ≡ take i v ++ (k ∷ drop i v))
insert_new v k s new = (rank v k, rw (insert_lem v k s, new))

-- After a removal the slice is increasing, it has what it had but for the key, and the call returned
-- whether the key was there.
pub remove_correct : (v : Set) (k : ℕ) → Increasing v → Removed v k (remove v k).0 (remove v k).1
remove_correct v k s = rw (remove_lem v k s) (elim (Bool-cases (has v k)) [
  | inl old ↦ rw old (record {
    increasing = drop_at_rank-Increasing v k s;
    members = λ j. has-drop_at_rank v k j s old;
    answer = rw old;
    count = sym (length-drop_at_rank v k s old);
  })
  | inr away ↦ rw away (record {
    increasing = s;
    members = λ j. not_member v k j away;
    answer = rw away;
    count = refl;
  })
])

-- Two increasing slices with the same members are equal: the slice stands for the set.
pub Increasing-ext :
    (v w : Set) → Increasing v → Increasing w → ((j : ℕ) → has v j ≡ has w j) → v ≡ w
unfolding has
Increasing-ext [] [] s t e = refl
Increasing-ext [] (y ∷ w) s t e = ground (arith, e y)
Increasing-ext (x ∷ v) [] s t e = ground (arith, e x)
Increasing-ext (x ∷ v) (y ∷ w) s t e = elim (compare-cases x y) [
  | less _ h ↦ ground (arith, e x, has_above x (y ∷ w) h t)
  | more _ h ↦ ground (arith, e y, has_above y (x ∷ v) h s)
  | same _ h ↦ ap₂ ◌∷◌ h (
      Increasing-ext v w s.1 t.1 λ j. elim (Bool-cases (x == j)) [
        | inl here ↦
            let at : x ≡ j = ground arith in
            subst (λ i. has v i ≡ has w i) at
              (has_above x v s.0 s.1
                ∙ sym (subst (λ i. has w i ≡ false) (sym h) (has_above y w t.0 t.1)))
        | inr other ↦ ground (arith, e j)
      ])
]
