-- ===== src/Encoding/Integers/Digits.antt =====
-- The bytes of a number and the number of some bytes, for encoding/integers.go.
use dusk_blockchain.Base.{
  ℕ, zero, suc, ◌+◌, ◌*◌, ◌/◌, ◌%◌, ◌^◌, ◌<◌, ◌≡◌, refl, ap, ◌∙◌, arith, List, [], ◌∷◌, ◌++◌,
  length, length-append,
}
use dusk_blockchain.Encoding.Buffer.{Bytes, AllBytes}
use native.Mathlib.Nat.{pow-suc}
use mathlib.Core.List.{reverse, reverse-cons, reverse-reverse}
use dusk_blockchain.Encoding.Integers.{
  ByteOrder, little_endian, big_endian, digits, value, put_uint, uint,
}

pub length-digits : (n v : ℕ) → length (digits n v) ≡ n
unfolding digits
length-digits zero v = refl
length-digits (suc n) v = ap suc (length-digits n (v / 256))

length-reverse {ℓ} : {A : Type ℓ} (xs : List A) → length (reverse xs) ≡ length xs
length-reverse [] = refl
length-reverse (x ∷ xs) =
    omega
      (arith, ap length (reverse-cons x xs), length-append (reverse xs) (x ∷ []), length-reverse xs)

pub length-put_uint : (o : ByteOrder) (n v : ℕ) → length (put_uint o n v) ≡ n
unfolding put_uint
length-put_uint little_endian n v = length-digits n v
length-put_uint big_endian n v = length-reverse (digits n v) ∙ length-digits n v

pub value-digits : (n v : ℕ) → v < 256 ^ n → value (digits n v) ≡ v
unfolding value digits
value-digits zero v h = omega arith
value-digits (suc n) v h = omega (arith, value-digits n (v / 256) (omega (arith, pow-suc 256 n)))

-- A number that fits the width is read back from its bytes, in either order.
pub uint-put_uint : (o : ByteOrder) (n v : ℕ) → v < 256 ^ n → uint o (put_uint o n v) ≡ v
unfolding uint put_uint
uint-put_uint little_endian n v h = value-digits n v h
uint-put_uint big_endian n v h = rw reverse-reverse (value-digits n v h)

digits-value : (bs : Bytes) → AllBytes bs → digits (length bs) (value bs) ≡ bs
unfolding value digits
digits-value [] h = refl
digits-value (b ∷ bs) (hb, hs) =
    let low : (b + 256 * value bs) % 256 ≡ b = omega arith in
    let high : (b + 256 * value bs) / 256 ≡ value bs = omega arith in
    rw (low, high, digits-value bs hs)

AllBytes-append : (xs ys : Bytes) → AllBytes xs → AllBytes ys → AllBytes (xs ++ ys)
AllBytes-append [] ys hx hy = hy
AllBytes-append (x ∷ xs) ys hx hy = (hx.0, AllBytes-append xs ys hx.1 hy)

pub AllBytes-reverse : (bs : Bytes) → AllBytes bs → AllBytes (reverse bs)
AllBytes-reverse [] h = tt
AllBytes-reverse (b ∷ bs) (hb, hs) =
    rw reverse-cons (AllBytes-append (reverse bs) (b ∷ []) (AllBytes-reverse bs hs) (hb, tt))

-- Bytes that were read are written back, in either order.
pub put_uint-uint :
    (o : ByteOrder) (bs : Bytes) → AllBytes bs → put_uint o (length bs) (uint o bs) ≡ bs
unfolding uint put_uint
put_uint-uint little_endian bs h = digits-value bs h
put_uint-uint big_endian bs h =
    let e = digits-value (reverse bs) (AllBytes-reverse bs h) in
    rw (← length-reverse bs) (ap reverse e ∙ reverse-reverse bs)

pub value-lt : (bs : Bytes) → AllBytes bs → value bs < 256 ^ length bs
unfolding value
value-lt [] h = omega arith
value-lt (b ∷ bs) (hb, hs) = omega (arith, pow-suc 256 (length bs), value-lt bs hs)

pub uint-lt : (o : ByteOrder) (bs : Bytes) → AllBytes bs → uint o bs < 256 ^ length bs
unfolding uint
uint-lt little_endian bs h = value-lt bs h
uint-lt big_endian bs h = rw (← length-reverse bs) (value-lt (reverse bs) (AllBytes-reverse bs h))
