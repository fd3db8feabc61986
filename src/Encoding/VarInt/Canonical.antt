-- ===== src/Encoding/VarInt/Canonical.antt =====
-- ReadVarInt of encoding/varint.go accepts what WriteVarInt writes and nothing else.
use dusk_blockchain.Base.{
  ℕ, ◌+◌, ◌^◌, ◌<◌, ◌-◌, ◌≡◌, arith, subst, ltb, leb, if◌then◌else◌, length, [], ◌∷◌, ◌++◌, refl,
  ◌∙◌, ap, append_assoc, Bool-cases, inl, inr, ◌%◌,
}
use dusk_blockchain.Encoding.Buffer.{Bytes, AllBytes, M, ok, ◌>>=◌, ◌>>◌, >>=-eq-ok, write}
use dusk_blockchain.Encoding.Integers.{
  little_endian, read_uint8, read_uint16, read_uint32, read_uint64, write_uint8, write_uint16,
  write_uint32, write_uint64, put_uint,
}
use dusk_blockchain.Encoding.Integers.Digits.{length-put_uint}
use dusk_blockchain.Encoding.VarInt.{
  check_canonical, by_discriminant, read_var_int, write_var_int, var_int_encode_size,
}
use dusk_blockchain.Encoding.Integers.RoundTrip.{
  TakenFrom, read_uint8_taken, read_uint16_taken, read_uint32_taken, read_uint64_taken,
}

-- What the reader accepts on each branch of the switch.
check_canonical-ok :
    (least v w : ℕ) (buf rest : Bytes)
    → check_canonical least v buf ≡ ok w rest
    → (v ≡ w) × (buf ≡ rest) × (least < w + 1)
unfolding check_canonical
check_canonical-ok least v w buf rest h = ground arith

module _ (buf : Bytes) {v : ℕ} {rest : Bytes} (h : AllBytes buf) where
  long_taken :
      (n least : ℕ) (r : M ℕ)
      → ((a : ℕ) (mid : Bytes)
          → r buf ≡ ok a mid
          → TakenFrom buf (put_uint little_endian n a) mid a (256 ^ n))
      → (r >>= check_canonical least) buf ≡ ok v rest
      → TakenFrom buf (put_uint little_endian n v) rest v (256 ^ n) × (least < v + 1)
  long_taken n least r taken e =
      let (a, mid, got, checked) = >>=-eq-ok r (check_canonical least) buf e in
      let (same, kept, lo) = check_canonical-ok least a v mid rest checked in
      let (split, hi, hm) = taken a mid got in
      ((rw (← same, ← kept) split, rw (← same) hi, subst AllBytes kept hm), lo)

-- The form in which the writer puts a number.
unfoldable pub var_int_bytes : ℕ → Bytes
var_int_bytes v =
    if ltb v 0xfd
    then v ∷ []
    else if leb v (2 ^ 16 - 1)
    then 0xfd ∷ put_uint little_endian 2 v
    else if leb v (2 ^ 32 - 1)
    then 0xfe ∷ put_uint little_endian 4 v
    else 0xff ∷ put_uint little_endian 8 v

by_discriminant_taken :
    (d : ℕ) (buf : Bytes) {v : ℕ} {rest : Bytes}
    → AllBytes buf
    → d < 256
    → by_discriminant d buf ≡ ok v rest
    → (d ∷ buf ≡ var_int_bytes v ++ rest) × (v < 2 ^ 64) × AllBytes rest
unfolding by_discriminant var_int_bytes
by_discriminant_taken d buf {v} {rest} h hd e = ground (
  arith,
  long_taken buf {v = v} {rest = rest} h 8 0x100000000 (read_uint64 little_endian)
      (λ (a : ℕ) (mid : Bytes) (got : read_uint64 little_endian buf ≡ ok a mid).
        read_uint64_taken little_endian buf h got),
  long_taken buf {v = v} {rest = rest} h 4 0x10000 (read_uint32 little_endian)
      (λ (a : ℕ) (mid : Bytes) (got : read_uint32 little_endian buf ≡ ok a mid).
        read_uint32_taken little_endian buf h got),
  long_taken buf {v = v} {rest = rest} h 2 0xfd (read_uint16 little_endian)
      (λ (a : ℕ) (mid : Bytes) (got : read_uint16 little_endian buf ≡ ok a mid).
        read_uint16_taken little_endian buf h got),
)

marked : (d : ℕ) (bs buf : Bytes) → (write_uint8 d >> write bs) buf ≡ ok tt (buf ++ (d ∷ bs))
unfolding write_uint8 write ◌>>◌ ◌>>=◌
marked d bs buf = ap (ok tt) (append_assoc buf (d ∷ []) bs)

write_var_int_lem :
    (v : ℕ) → v < 2 ^ 64 → (buf : Bytes) → write_var_int v buf ≡ ok tt (buf ++ var_int_bytes v)
unfolding write_var_int var_int_bytes write_uint16 write_uint32 write_uint64
write_var_int_lem v h buf = elim (Bool-cases (ltb v 0xfd)) [
  | inl small ↦
      let e : v % 2 ^ 8 ≡ v = ground arith in rw (small, e) (unfold write_uint8 write in refl)
  | inr big ↦ rw big (elim (Bool-cases (leb v (2 ^ 16 - 1))) [
    | inl two ↦
        let e : v % 2 ^ 16 ≡ v = ground arith in
        rw (two, e) (marked 0xfd (put_uint little_endian 2 v) buf)
    | inr bigger ↦ rw bigger (elim (Bool-cases (leb v (2 ^ 32 - 1))) [
      | inl four ↦
          let e : v % 2 ^ 32 ≡ v = ground arith in
          rw (four, e) (marked 0xfe (put_uint little_endian 4 v) buf)
      | inr biggest ↦ rw biggest (marked 0xff (put_uint little_endian 8 v) buf)
    ])
  ])
]

length-var_int_bytes : (v : ℕ) → length (var_int_bytes v) ≡ var_int_encode_size v
unfolding var_int_bytes var_int_encode_size
length-var_int_bytes v = ground (
  arith,
  length-put_uint little_endian 2 v,
  length-put_uint little_endian 4 v,
  length-put_uint little_endian 8 v,
)

-- The writer appends as many bytes as `VarIntEncodeSize` says, to whatever the buffer holds.
pub write_var_int_size :
    (v : ℕ) (buf : Bytes)
    → v < 2 ^ 64
    → (bs : Bytes) × (write_var_int v buf ≡ ok tt (buf ++ bs)) × (length bs ≡ var_int_encode_size v)
write_var_int_size v buf h = (var_int_bytes v, write_var_int_lem v h buf, length-var_int_bytes v)

-- A buffer from which a number is read begins with the bytes that the writer puts for that number.
pub read_var_int_canonical :
    (buf : Bytes) (v : ℕ) (rest : Bytes)
    → AllBytes buf
    → read_var_int buf ≡ ok v rest
    → (front : Bytes) × (buf ≡ front ++ rest) × (write_var_int v [] ≡ ok tt front) × (v < 2 ^ 64)
unfolding read_var_int
read_var_int_canonical buf v rest h e =
    let (d, mid, got, e') = >>=-eq-ok read_uint8 by_discriminant buf e in
    let (split, hd, hm) = read_uint8_taken buf h got in
    let (again, hv, _) = by_discriminant_taken d mid hm hd e' in
    (var_int_bytes v, split ∙ again, write_var_int_lem v hv [], hv)
