-- ===== src/Committee/Sortition/Seats.antt =====
-- Sets in increasing order by their members: how many there are, and which of them another set lacks.
use dusk_blockchain.Base.{
  ℕ, zero, suc, ◌≤◌, ◌<◌, ◌≡◌, ◌⊎◌, inl, inr, refl, arith, true, false, ◌==◌, Bool-cases,
  compare-cases, less, same, more, [], ◌∷◌, some, length, get_elem?, take, length-take,
}
use dusk_blockchain.SortedSet.{Set}
use dusk_blockchain.SortedSet.Search.{Under, Increasing, has}
use dusk_blockchain.SortedSet.Bitset.{Subset, has-lt}

has-head : (x : ℕ) (v : Set) → has (x ∷ v) x ≡ true
unfolding has
has-head x v = ground arith

-- A subset has no more elements than the set.
pub Subset-length : (v c : Set) → Increasing v → Increasing c → Subset v c → length v ≤ length c
unfolding has
Subset-length [] c iv ic sub = omega arith
Subset-length (x ∷ v) [] iv ic sub = absurd (ground (arith, sub x))
Subset-length (x ∷ v) (y ∷ c) iv ic sub = elim (compare-cases x y) [
  | less _ lt ↦
      let there : has c x ≡ true = ground (arith, sub x (has-head x v)) in
      absurd (omega (arith, has-lt y c x ic.0 ic.1 there))
  | same _ e ↦
      omega (
        arith,
        Subset-length v c iv.1 ic.1 (λ j h. ground (arith, sub j, has-lt x v j iv.0 iv.1 h)),
      )
  | more _ gt ↦ omega (
    arith,
    Subset-length (x ∷ v) c iv ic.1 (λ j h. ground (arith, sub j h, has-lt x v j iv.0 iv.1)),
  )
]

Under-take : (x n : ℕ) (v : Set) → Under x v → Under x (take n v)
Under-take x zero v u = tt
Under-take x (suc n) [] u = tt
Under-take x (suc n) (y ∷ v) u = u

take-Increasing : (n : ℕ) (v : Set) → Increasing v → Increasing (take n v)
take-Increasing zero v i = tt
take-Increasing (suc n) [] i = tt
take-Increasing (suc n) (x ∷ v) i = (Under-take x n v i.0, take-Increasing n v i.1)

-- One of the first `n` elements of a set that another lacks.
pub record Lacking (n : ℕ) (v c : Set) : Type 0 where
  pub index : ℕ
  pub key : ℕ
  pub below : index < n
  pub at : get_elem? v index ≡ some key
  pub lacks : has c key ≡ false

later : (n x : ℕ) (v c : Set) → Lacking n v c → Lacking (suc n) (x ∷ v) c
later n x v c l = record {
  index = suc l.index;
  key = l.key;
  below = omega (arith, l.below);
  at = l.at;
  lacks = l.lacks;
}

all_or_lacking : (n : ℕ) (v c : Set) → n ≤ length v → Subset (take n v) c ⊎ Lacking n v c
unfolding has
all_or_lacking zero v c le = inl (λ j h. absurd (ground arith))
all_or_lacking (suc n) [] c le = absurd (omega arith)
all_or_lacking (suc n) (x ∷ v) c le = elim (Bool-cases (has c x)) [
  | inr lack ↦ inr record { index = 0; key = x; below = omega arith; at = refl; lacks = lack }
  | inl has_x ↦ elim (all_or_lacking n v c (omega arith)) [
    | inr l ↦ inr (later n x v c l)
    | inl sub ↦ inl (λ j h. elim (Bool-cases (x == j)) [
      | inl here ↦ let e : x ≡ j = ground arith in rw (← e) has_x
      | inr there ↦ sub j (ground arith)
    ])
  ]
]

-- A set of fewer than `n` elements lacks one of any `n`.
pub lacking :
    (n : ℕ) (v c : Set) → Increasing v → Increasing c → n ≤ length v → length c < n → Lacking n v c
lacking n v c iv ic le lt = elim (all_or_lacking n v c le) [
  | inr l ↦ l
  | inl sub ↦
      absurd
        (omega (arith, Subset-length (take n v) c (take-Increasing n v iv) ic sub, length-take n v))
]
