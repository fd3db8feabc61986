-- ===== src/SortedSet/Bitset.antt =====
-- Bits, Whole and Intersect of sortedset.go: a committee's subset packed into the bits of a uint64 and
-- unpacked again, as votes travel on the wire.
use Prim.Native.Nat.{bit_or, bit_and}
use dusk_blockchain.Base.{
  ℕ, suc, ◌+◌, ◌*◌, ◌/◌, ◌^◌, ◌≡◌, ◌<◌, ◌≤◌, refl, subst, sym, ap, ◌∙◌, arith, true, false, ◌||◌,
  ◌==◌, ltb, if◌then◌else◌, Bool-cases, inl, inr, [], ◌∷◌, length,
}
use dusk_blockchain.Base.Bits.{bit_or_top, bit_and_low}
use native.Mathlib.Nat.{pow-suc, div-div-eq-div-mul, pow-le-pow_right}
use dusk_blockchain.SortedSet.{
  Set, shift_one, all, whole_loop, whole, select_loop, intersect, bits_loop, bits,
}
use dusk_blockchain.SortedSet.Search.{Under, Increasing, has}
use dusk_blockchain.SortedSet.Update.{has_above}

-- The bits of the subset, the lowest for the first element.
mask : Set → Set → ℕ
mask [] s = 0
mask (x ∷ v) [] = 0
mask (x ∷ v) (y ∷ s) = if x == y then 1 + 2 * mask v s else 2 * mask v (y ∷ s)

mask-nil : (v : Set) → mask v [] ≡ 0
unfolding mask
mask-nil [] = refl
mask-nil (x ∷ v) = refl

set_bit :
    (ret i m : ℕ)
    → ret < 2 ^ i
    → i < 64
    → (bit_or ret (shift_one i) ≡ ret + 2 ^ i)
      × (ret + 2 ^ i < 2 ^ suc i)
      × (ret + 2 ^ i * (1 + 2 * m) ≡ ret + 2 ^ i + 2 ^ suc i * m)
set_bit ret i m h lt =
    let small : ltb i 64 ≡ true = ground arith in
    (
      rw small (bit_or_top ret i h),
      omega (arith, pow-suc 2 i),
      omega (arith, ap (λ (t : ℕ). t * m) (pow-suc 2 i)),
    )

bits_loop-mask :
    (v : Set) (head : ℕ) (subset : Set) (i ret : ℕ)
    → ret < 2 ^ i
    → i + length v ≤ 64
    → bits_loop v head subset i ret ≡ ret + 2 ^ i * mask v (head ∷ subset)
unfolding bits_loop mask
bits_loop-mask [] head subset i ret h le = omega arith
bits_loop-mask (x ∷ v) head [] i ret h le =
    let (here, lt, sum) = set_bit ret i (mask v []) h (omega arith) in
    elim (Bool-cases (x == head)) [
      | inl hit ↦ rw (hit, here, mask-nil v) (omega arith)
      | inr miss ↦ rw miss (
          bits_loop-mask v head [] (suc i) ret (omega (arith, pow-suc 2 i)) (omega arith)
          ∙ omega (arith, ap (λ (t : ℕ). t * mask v (head ∷ [])) (pow-suc 2 i)))
    ]
bits_loop-mask (x ∷ v) head (y ∷ subset) i ret h le =
    let (here, lt, sum) = set_bit ret i (mask v (y ∷ subset)) h (omega arith) in
    elim (Bool-cases (x == head)) [
      | inl hit ↦
          rw (hit, here)
            (bits_loop-mask v y subset (suc i) (ret + 2 ^ i) lt (omega arith) ∙ sym sum)
      | inr miss ↦ rw miss (
          bits_loop-mask v head (y ∷ subset) (suc i) ret (omega (arith, pow-suc 2 i)) (omega arith)
          ∙ omega (arith, ap (λ (t : ℕ). t * mask v (head ∷ y ∷ subset)) (pow-suc 2 i)))
    ]

whole_loop-mask :
    (v : Set) (i ret : ℕ)
    → ret < 2 ^ i
    → i + length v ≤ 64
    → whole_loop v i ret ≡ ret + 2 ^ i * mask v v
unfolding whole_loop mask
whole_loop-mask [] i ret h le = omega arith
whole_loop-mask (x ∷ v) i ret h le =
    let (here, lt, sum) = set_bit ret i (mask v v) h (omega arith) in
    let same : (x == x) ≡ true = ground arith in
    rw (here, same) (whole_loop-mask v (suc i) (ret + 2 ^ i) lt (omega arith) ∙ sym sum)

-- Everything in one set is in the other.
abbrev pub Subset : Set → Set → Type 0
Subset s v = (j : ℕ) → has s j ≡ true → has v j ≡ true

pub has-lt : (x : ℕ) (v : Set) (j : ℕ) → Under x v → Increasing v → has v j ≡ true → x < j
unfolding has
has-lt x [] j u s e = cc
has-lt x (y ∷ v) j u s e = elim (Bool-cases (y == j)) [
  | inl here ↦ ground arith
  | inr there ↦ omega (arith, has-lt y v j s.0 s.1 (ground arith))
]

-- The first element of a subset is the first of the set, and the rest is in the rest; or the set's
-- first element is in front of the whole subset.
Subset_hit : (x : ℕ) (v s : Set) → Increasing (x ∷ s) → Subset (x ∷ s) (x ∷ v) → Subset s v
unfolding has
Subset_hit x v s inc sub j h = ground (arith, sub j, has_above x s inc.0 inc.1)

Subset_miss :
    (x y : ℕ) (v s : Set)
    → Increasing (x ∷ v)
    → Increasing (y ∷ s)
    → (x == y) ≡ false
    → Subset (y ∷ s) (x ∷ v)
    → Subset (y ∷ s) v
unfolding has
Subset_miss x y v s iv is ne sub j h =
    let next : has v y ≡ true = ground (arith, sub y) in
    let lt : x < y = has-lt x v y iv.0 iv.1 next in ground (arith, sub j, has_above x (y ∷ s) lt is)

-- The bits of an element and of those behind it.
bit_here :
    (set i m : ℕ)
    → (set / 2 ^ i ≡ 1 + 2 * m → (bit_and (set / 2 ^ i) 1 == 0) ≡ false)
      × (set / 2 ^ i ≡ 2 * m → (bit_and (set / 2 ^ i) 1 == 0) ≡ true)
bit_here set i m = (
  λ e. rw (bit_and_low (set / 2 ^ i), e) (ground arith),
  λ e. rw (bit_and_low (set / 2 ^ i), e) (ground arith),
)

bits_behind : (set i : ℕ) → set / 2 ^ suc i ≡ set / 2 ^ i / 2
bits_behind set i =
    let e : 2 ^ suc i ≡ 2 ^ i * 2 = omega (arith, pow-suc 2 i) in
    rw e (sym (div-div-eq-div-mul set (2 ^ i) 2))

select_loop-mask :
    (v s : Set) (set i : ℕ)
    → Increasing v
    → Increasing s
    → Subset s v
    → set / 2 ^ i ≡ mask v s
    → select_loop v set i ≡ s
unfolding select_loop mask
select_loop-mask [] [] set i iv is sub e = refl
select_loop-mask [] (y ∷ s) set i iv is sub e = unfold has in ground (arith, sub y)
select_loop-mask (x ∷ v) [] set i iv is sub e = rw ((bit_here set i 0).1 e) (
    select_loop-mask v [] set (suc i) iv.1 tt (λ j h. unfold has in cc)
      (bits_behind set i ∙ omega (arith, mask-nil v)))
select_loop-mask (x ∷ v) (y ∷ s) set i iv is sub e = elim (Bool-cases (x == y)) [
  | inl hit ↦
      let same : x ≡ y = ground arith in
      let e' : set / 2 ^ i ≡ 1 + 2 * mask v s = rw hit at e in
      let ih =
        select_loop-mask v s set (suc i) iv.1 is.1
          (Subset_hit y v s is (subst (λ z. Subset (y ∷ s) (z ∷ v)) same sub))
          (bits_behind set i ∙ omega arith) in
      rw ((bit_here set i (mask v s)).0 e', ih, same)
  | inr miss ↦
      let e' : set / 2 ^ i ≡ 2 * mask v (y ∷ s) = rw miss at e in
      rw ((bit_here set i (mask v (y ∷ s))).1 e') (
        select_loop-mask v (y ∷ s) set (suc i) iv.1 is (Subset_miss x y v s iv is miss sub)
          (bits_behind set i ∙ omega arith))
]

mask-bounds : (v s : Set) → (mask v s ≤ mask v v) × (mask v v + 1 ≡ 2 ^ length v)
unfolding mask
mask-bounds [] s = omega arith
mask-bounds (x ∷ v) [] = ground (arith, mask-bounds v [], pow-suc 2 (length v))
mask-bounds (x ∷ v) (y ∷ s) =
    ground (arith, mask-bounds v s, mask-bounds v (y ∷ s), pow-suc 2 (length v))

-- Equal bits come from equal subsets.
mask-injective :
    (v s t : Set)
    → Increasing v
    → Increasing s
    → Increasing t
    → Subset s v
    → Subset t v
    → mask v s ≡ mask v t
    → s ≡ t
mask-injective v s t iv is it' ss st e =
    sym (select_loop-mask v s (mask v s) 0 iv is ss (omega arith))
    ∙ select_loop-mask v t (mask v s) 0 iv it' st (omega arith)

bits-mask : (v s : Set) → length v ≤ 64 → bits v s ≡ mask v s
unfolding bits
bits-mask v [] h = sym (mask-nil v)
bits-mask v (y ∷ s) h = bits_loop-mask v y s 0 0 (omega arith) (omega arith) ∙ omega arith

-- A subset of a committee of at most 64 members is unpacked from the bits that it was packed into.
pub intersect-bits :
    (v s : Set)
    → Increasing v
    → Increasing s
    → Subset s v
    → length v ≤ 64
    → intersect v (bits v s) ≡ s
unfolding intersect whole
intersect-bits v s iv is sub h =
    elim (Bool-cases (bits v s == all || bits v s == whole_loop v 0 0)) [
      | inl full ↦
          rw full (mask-injective v v s iv iv is (λ j e. e) sub (omega (arith, all_bits full)))
      | inr part ↦
          rw part (select_loop-mask v s (bits v s) 0 iv is sub (omega (arith, bits-mask v s h)))
    ]
  where
    width : 2 ^ length v ≤ 2 ^ 64
    width = pow-le-pow_right (omega arith) h

    all_bits : (bits v s == all || bits v s == whole_loop v 0 0) ≡ true → mask v v ≡ mask v s
    all_bits full = ground (arith, bits-mask v s h, whole_loop-mask v 0 0, mask-bounds v s, width)
