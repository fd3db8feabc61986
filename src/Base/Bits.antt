-- ===== src/Base/Bits.antt =====
-- Facts about the bits of a number: setting a bit above all others adds it, the lowest bit is the
-- remainder by 2, and an exclusive or is at most the sum. All go down the digits, as the native operations are defined.
use Prim.Native.Nat.{
  ℕ, zero, suc, ◌+◌, ◌/◌, ◌%◌, ◌^◌, ◌≤◌, ◌<◌, min, max, digits, bit_and, bit_or, bit_and-bitwise,
  bit_or-bitwise, differ, bit_xor, bit_xor-bitwise,
}
use mathlib.Core.Path.{◌≡◌, refl}
use native.Mathlib.Nat.{pow-suc}
use native.Mathlib.Omega.{arith}

abbrev or_from : ℕ → ℕ → ℕ → ℕ
or_from = digits (λ b. b) max

abbrev and_from : ℕ → ℕ → ℕ → ℕ
and_from = digits (λ b. 0) min

top_bit_from : (n r i : ℕ) → r ≤ n → r < 2 ^ i → or_from n r (2 ^ i) ≡ r + 2 ^ i
top_bit_from zero zero i le lt = omega arith
top_bit_from zero (suc r) i le lt = absurd (omega arith)
top_bit_from (suc n) zero i le lt = omega arith
top_bit_from (suc n) (suc r) zero le lt = absurd (omega arith)
top_bit_from (suc n) (suc r) (suc i) le lt =
    let half : 2 ^ suc i / 2 ≡ 2 ^ i = omega (arith, pow-suc 2 i) in
    let even : 2 ^ suc i % 2 ≡ 0 = omega (arith, pow-suc 2 i) in
    let ih = top_bit_from n (suc r / 2) i (omega arith) (omega (arith, pow-suc 2 i)) in
    rw (half, even, ih) (omega (arith, pow-suc 2 i))

-- `r | 1 << i` where bit `i` lies above the bits of `r`.
pub bit_or_top : (r i : ℕ) → r < 2 ^ i → bit_or r (2 ^ i) ≡ r + 2 ^ i
bit_or_top r i h = rw bit_or-bitwise (top_bit_from r r i (omega arith) h)

no_bits_from : (n a : ℕ) → a ≤ n → and_from n a 0 ≡ 0
no_bits_from zero a le = refl
no_bits_from (suc n) zero le = refl
no_bits_from (suc n) (suc a) le = omega (arith, no_bits_from n (suc a / 2) (omega arith))

low_bit_from : (n a : ℕ) → a ≤ n → and_from n a 1 ≡ a % 2
low_bit_from zero zero le = refl
low_bit_from zero (suc a) le = absurd (omega arith)
low_bit_from (suc n) zero le = refl
low_bit_from (suc n) (suc a) le = omega (arith, no_bits_from n (suc a / 2) (omega arith))

-- `a & 1`.
pub bit_and_low : (a : ℕ) → bit_and a 1 ≡ a % 2
bit_and_low a = rw bit_and-bitwise (low_bit_from a a (omega arith))

abbrev xor_from : ℕ → ℕ → ℕ → ℕ
xor_from = digits (λ b. b) differ

differ_le : (x y : ℕ) → differ x y ≤ x + y
differ_le zero y = omega arith
differ_le (suc x) zero = omega arith
differ_le (suc x) (suc y) = omega (arith, differ_le x y)

xor_from_le : (n a b : ℕ) → a ≤ n → xor_from n a b ≤ a + b
xor_from_le zero a b le = omega arith
xor_from_le (suc n) zero b le = omega arith
xor_from_le (suc n) (suc a) b le =
    omega (arith, xor_from_le n (suc a / 2) (b / 2) (omega arith), differ_le (suc a % 2) (b % 2))

pub bit_xor_le : (a b : ℕ) → bit_xor a b ≤ a + b
bit_xor_le a b = rw bit_xor-bitwise (xor_from_le a a b (omega arith))
