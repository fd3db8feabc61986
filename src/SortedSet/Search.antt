-- ===== src/SortedSet/Search.antt =====
-- The binary search of sortedset.go finds the place of a key, and whether the key is there.
use dusk_blockchain.Base.{
  ℕ, zero, suc, ◌+◌, ◌-◌, ◌/◌, ◌≤◌, ◌<◌, ◌≡◌, ◌⊎◌, inl, inr, refl, ap, arith, Bool, true, false,
  ◌||◌, ◌==◌, ltb, if◌then◌else◌, Bool-cases, compare-cases, less, same, more, [], ◌∷◌, length,
  get_or,
}
use dusk_blockchain.SortedSet.{Set, search, index_of}

-- Smaller than the first element.
abbrev pub Under : ℕ → Set → Type 0
Under x [] = Unit {0}
Under x (y ∷ v) = x < y

-- Each element is smaller than the next.
abbrev pub Increasing : Set → Type 0
Increasing [] = Unit {0}
Increasing (x ∷ v) = Under x v × Increasing v

-- Membership, and the number of leading elements that are smaller than the key.
unfoldable pub has : Set → ℕ → Bool
has [] k = false
has (x ∷ v) k = x == k || has v k

unfoldable pub rank : Set → ℕ → ℕ
rank [] k = 0
rank (x ∷ v) k = if ltb x k then suc (rank v k) else 0

head_least : (x : ℕ) (v : Set) (h : ℕ) → Under x v → Increasing v → h < length v → x < get_or v h 0
head_least x [] h u s lt = absurd (omega arith)
head_least x (y ∷ v) zero u s lt = u
head_least x (y ∷ v) (suc h) u s lt = omega (arith, head_least y v h s.0 s.1 (omega arith))

probe_lt : (v : Set) (k h : ℕ) → Increasing v → h < length v → get_or v h 0 < k → h < rank v k
unfolding rank
probe_lt [] k h s lt e = absurd (omega arith)
probe_lt (x ∷ v) k zero s lt e = ground arith
probe_lt (x ∷ v) k (suc h) s lt e =
    ground (arith, probe_lt v k h s.1 (omega arith) e, head_least x v h s.0 s.1 (omega arith))

probe_ge : (v : Set) (k h : ℕ) → h < length v → k ≤ get_or v h 0 → rank v k ≤ h
unfolding rank
probe_ge [] k h lt e = omega arith
probe_ge (x ∷ v) k zero lt e = ground arith
probe_ge (x ∷ v) k (suc h) lt e = ground (arith, probe_ge v k h (omega arith) e)

probe_eq : (v : Set) (k h : ℕ) → h < length v → get_or v h 0 ≡ k → has v k ≡ true
unfolding has
probe_eq [] k h lt e = absurd (omega arith)
probe_eq (x ∷ v) k zero lt e = ground arith
probe_eq (x ∷ v) k (suc h) lt e = ground (arith, probe_eq v k h (omega arith) e)

-- A key that is there stands at its rank.
pub has-rank :
    (v : Set) (k : ℕ)
    → Increasing v
    → has v k ≡ true
    → (rank v k < length v) × (get_or v (rank v k) 0 ≡ k)
unfolding has rank
has-rank [] k s e = cc
has-rank (x ∷ v) k s e = elim (Bool-cases (x == k)) [
  | inl here ↦ ground arith
  | inr there ↦
      let (lt, at) = has-rank v k s.1 (ground arith) in
      let small = head_least x v (rank v k) s.0 s.1 lt in ground arith
]

pub rank-le : (v : Set) (k : ℕ) → rank v k ≤ length v
unfolding rank
rank-le [] k = omega arith
rank-le (x ∷ v) k = ground (arith, rank-le v k)

-- What the loop knows: the range holds the rank, `found` is right when it is set, and a key that is
-- there has been probed or stands in the range.
record Narrowed (v : Set) (k i j : ℕ) (found : Bool) : Type 0 where
  low : i ≤ rank v k
  high : rank v k ≤ j
  within : j ≤ length v
  sound : found ≡ true → has v k ≡ true
  complete : has v k ≡ true → (found ≡ true) ⊎ (rank v k < j)

search_end :
    (v : Set) (k i j : ℕ) (found : Bool)
    → Narrowed v k i j found
    → j ≤ i
    → ◌≡◌ {A = ℕ × Bool} (i, found) (rank v k, has v k)
search_end v k i j found r e = elim (Bool-cases (has v k)) [
  | inl there ↦ elim (r.complete there) [ inl f ↦ ground arith | inr lt ↦ absurd (omega arith) ]
  | inr away ↦ elim (Bool-cases found) [ inl f ↦ cc (r.sound f) | inr f ↦ ground arith ]
]

module _ (v : Set) (k i j : ℕ) (found : Bool) (s : Increasing v) (r : Narrowed v k i j found) where
  module _ (m : ℕ) (lo : i ≤ m) (hi : m < j) where
    in_range : m < length v
    in_range = omega (arith, r.within)

    go_right : get_or v m 0 < k → Narrowed v k (suc m) j found
    go_right e = record {
      low = probe_lt v k m s in_range e;
      high = r.high;
      within = r.within;
      sound = r.sound;
      complete = r.complete;
    }

    hit : get_or v m 0 ≡ k → Narrowed v k i m true
    hit e = record {
      low = r.low;
      high = probe_ge v k m in_range (omega arith);
      within = omega (arith, in_range);
      sound = λ _. probe_eq v k m in_range e;
      complete = λ _. inl refl;
    }

    go_left : k < get_or v m 0 → Narrowed v k i m found
    go_left e = record {
      low = r.low;
      high = probe_ge v k m in_range (omega arith);
      within = omega (arith, in_range);
      sound = r.sound;
      complete = λ there. elim (r.complete there) [
        | inl f ↦ inl f
        | inr _ ↦ inr (before (has-rank v k s there))
      ];
    }
      where
        before : (rank v k < length v) × (get_or v (rank v k) 0 ≡ k) → rank v k < m
        before (lt, at) = elim (compare-cases (rank v k) m) [
          | less _ h ↦ h
          | same _ h ↦ absurd (omega (arith, ap (λ (x : ℕ). get_or v x 0) h))
          | more _ h ↦ absurd (omega (arith, probe_ge v k m in_range (omega arith)))
        ]

search_lem :
    (fuel : ℕ) (v : Set) (k i j : ℕ) (found : Bool)
    → Increasing v
    → Narrowed v k i j found
    → j - i < fuel
    → search fuel v k i j found ≡ (rank v k, has v k)
unfolding search
search_lem zero v k i j found s r f = absurd (omega arith)
search_lem (suc fuel) v k i j found s r f = elim (Bool-cases (ltb i j)) [
  | inr done ↦ rw (done, search) (search_end v k i j found r (ground arith))
  | inl open_range ↦
      rw (open_range, search)
        (let m = (i + j) / 2 in
          let lo : i ≤ m = ground arith in
          let hi : m < j = ground arith in
          elim (compare-cases (get_or v m 0) k) [
            | less e h ↦ rw e (
                search_lem fuel v k (suc m) j found s (go_right v k i j found s r m lo hi h)
                  (omega arith))
            | same e h ↦
                rw e
                  (search_lem fuel v k i m true s (hit v k i j found s r m lo hi h) (omega arith))
            | more e h ↦ rw e (
                search_lem fuel v k i m found s (go_left v k i j found s r m lo hi h) (omega arith))
          ])
]

-- On an increasing slice `indexOf` gives the number of smaller elements, and whether the key is there.
pub index_of_lem : (v : Set) (k : ℕ) → Increasing v → index_of v k ≡ (rank v k, has v k)
unfolding index_of
index_of_lem v k s = search_lem (suc (length v)) v k 0 (length v) false s start (omega arith)
  where
    start : Narrowed v k 0 (length v) false
    start = record {
      low = omega arith;
      high = rank-le v k;
      within = omega arith;
      sound = λ e. cc;
      complete = λ there. inr (has-rank v k s there).0;
    }
