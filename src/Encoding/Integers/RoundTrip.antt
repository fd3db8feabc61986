-- ===== src/Encoding/Integers/RoundTrip.antt =====
-- The readers of encoding/integers.go against its writers.
use dusk_blockchain.Base.{ℕ, ◌%◌, ◌^◌, ◌<◌, ◌≡◌, refl, arith, subst, [], ◌∷◌, ◌++◌}
use dusk_blockchain.Encoding.Buffer.{
  Bytes, AllBytes, ok, ◌>>=◌, >>=-eq-ok, pure, read_all, write, read_all-ok,
}
use dusk_blockchain.Encoding.Codec.{RoundTrips, RoundTrips-bind, write-Reads}
use dusk_blockchain.Encoding.Integers.{
  ByteOrder, little_endian, digits, value, put_uint, uint, read_uint8, read_uint16, read_uint32,
  read_uint64, write_uint8, write_uint16, write_uint32, write_uint64,
}
use dusk_blockchain.Encoding.Integers.Digits.{
  length-put_uint, uint-put_uint, put_uint-uint, uint-lt,
}

AllBytes-split : (xs ys : Bytes) → AllBytes (xs ++ ys) → AllBytes xs × AllBytes ys
AllBytes-split [] ys h = (tt, h)
AllBytes-split (x ∷ xs) ys (hx, h) = let (a, b) = AllBytes-split xs ys h in ((hx, a), b)

-- A number that was read: its bytes stood at the front of the buffer.
abbrev pub TakenFrom : Bytes → Bytes → Bytes → ℕ → ℕ → Type 0
TakenFrom buf front rest v bound = (buf ≡ front ++ rest) × (v < bound) × AllBytes rest

uint_taken :
    (o : ByteOrder) (n : ℕ) (buf : Bytes) {v : ℕ} {rest : Bytes}
    → AllBytes buf
    → (read_all n >>= λ bs. pure (uint o bs)) buf ≡ ok v rest
    → TakenFrom buf (put_uint o n v) rest v (256 ^ n)
uint_taken o n buf {v} {rest} h e =
    let (bs, mid, took, last) = >>=-eq-ok (read_all n) (λ bs. pure (uint o bs)) buf e in
    let (split, len) = read_all-ok n buf bs mid took in
    let (hb, hm) = AllBytes-split bs mid (subst AllBytes split h) in
    let same : uint o bs ≡ v = cc in
    let kept : mid ≡ rest = cc in
    let again : put_uint o n v ≡ bs = rw (← same, ← len) (put_uint-uint o bs hb) in
    (rw (again, ← kept) split, rw (← same, ← len) (uint-lt o bs hb), subst AllBytes kept hm)

pub read_uint8_taken :
    (buf : Bytes) {v : ℕ} {rest : Bytes}
    → AllBytes buf
    → read_uint8 buf ≡ ok v rest
    → TakenFrom buf (v ∷ []) rest v 256
unfolding read_uint8 uint put_uint digits
read_uint8_taken buf {v} {rest} h e =
    let (a, b, c) = uint_taken little_endian 1 buf {v = v} {rest = rest} h e in
    let same : v % 256 ≡ v = omega arith in (rw same at a, b, c)

module _ (o : ByteOrder) (buf : Bytes) {v : ℕ} {rest : Bytes} (h : AllBytes buf) where
  pub read_uint16_taken :
      read_uint16 o buf ≡ ok v rest → TakenFrom buf (put_uint o 2 v) rest v (2 ^ 16)
  unfolding read_uint16
  read_uint16_taken e = uint_taken o 2 buf h e

  pub read_uint32_taken :
      read_uint32 o buf ≡ ok v rest → TakenFrom buf (put_uint o 4 v) rest v (2 ^ 32)
  unfolding read_uint32
  read_uint32_taken e = uint_taken o 4 buf h e

  pub read_uint64_taken :
      read_uint64 o buf ≡ ok v rest → TakenFrom buf (put_uint o 8 v) rest v (2 ^ 64)
  unfolding read_uint64
  read_uint64_taken e = uint_taken o 8 buf h e

-- The round trips, for the structures that are made of such fields.
pub uint8-RoundTrips : (v : ℕ) → RoundTrips (write_uint8 v) read_uint8 v
unfolding read_uint8 write_uint8 value
uint8-RoundTrips v = RoundTrips-bind (write-Reads 1 (v ∷ []) refl) value (omega arith)

module _ (o : ByteOrder) (v : ℕ) where
  field : (n : ℕ) → RoundTrips (write (put_uint o n v)) (read_all n) (put_uint o n v)
  field n = write-Reads n (put_uint o n v) (length-put_uint o n v)

  pub uint16-RoundTrips : v < 2 ^ 16 → RoundTrips (write_uint16 o v) (read_uint16 o) v
  unfolding read_uint16 write_uint16
  uint16-RoundTrips h = RoundTrips-bind (field 2) (uint o) (uint-put_uint o 2 v h)

  pub uint32-RoundTrips : v < 2 ^ 32 → RoundTrips (write_uint32 o v) (read_uint32 o) v
  unfolding read_uint32 write_uint32
  uint32-RoundTrips h = RoundTrips-bind (field 4) (uint o) (uint-put_uint o 4 v h)

  pub uint64-RoundTrips : v < 2 ^ 64 → RoundTrips (write_uint64 o v) (read_uint64 o) v
  unfolding read_uint64 write_uint64
  uint64-RoundTrips h = RoundTrips-bind (field 8) (uint o) (uint-put_uint o 8 v h)
