-- ===== src/Encoding/VarInt/RoundTrip.antt =====
-- A CompactSize number is read back (encoding/varint.go).
use dusk_blockchain.Base.{
  ℕ, ◌+◌, ◌%◌, ◌^◌, ◌<◌, ◌-◌, ◌≡◌, refl, arith, inl, inr, ltb, leb, Bool-cases,
}
use dusk_blockchain.Encoding.Buffer.{Bytes, ok, ◌>>◌}
use dusk_blockchain.Encoding.Codec.{RoundTrips, RoundTrips-then, RoundTrips-last}
use dusk_blockchain.Encoding.Integers.{
  little_endian, write_uint8, write_uint16, write_uint32, write_uint64,
}
use dusk_blockchain.Encoding.VarInt.{check_canonical, by_discriminant, read_var_int, write_var_int}
use dusk_blockchain.Encoding.Integers.RoundTrip.{
  uint8-RoundTrips, uint16-RoundTrips, uint32-RoundTrips, uint64-RoundTrips,
}

by_discriminant_small :
    (v : ℕ) → v < 0xfd → (rest : Bytes) → by_discriminant (v % 2 ^ 8) rest ≡ ok v rest
unfolding by_discriminant
by_discriminant_small v h rest = ground arith

check_canonical_pass :
    (least v w : ℕ)
    → v ≡ w
    → least < v + 1
    → (rest : Bytes) → check_canonical least v rest ≡ ok w rest
unfolding check_canonical
check_canonical_pass least v w e h rest = ground arith

one_byte : (v : ℕ) → v < 0xfd → RoundTrips (write_uint8 (v % 2 ^ 8)) read_var_int v
unfolding read_var_int
one_byte v h =
    RoundTrips-last (uint8-RoundTrips (v % 2 ^ 8)) by_discriminant (by_discriminant_small v h)

two_bytes :
    (v : ℕ)
    → 0xfd < v + 1
    → v < 2 ^ 16
    → RoundTrips (write_uint8 0xfd >> write_uint16 little_endian (v % 2 ^ 16)) read_var_int v
unfolding read_var_int by_discriminant
two_bytes v lo hi = RoundTrips-then (uint8-RoundTrips 0xfd) by_discriminant (
    RoundTrips-last (uint16-RoundTrips little_endian (v % 2 ^ 16) (omega arith))
      (check_canonical 0xfd) (check_canonical_pass 0xfd _ v (omega arith) (omega arith)))

four_bytes :
    (v : ℕ)
    → 0x10000 < v + 1
    → v < 2 ^ 32
    → RoundTrips (write_uint8 0xfe >> write_uint32 little_endian (v % 2 ^ 32)) read_var_int v
unfolding read_var_int by_discriminant
four_bytes v lo hi = RoundTrips-then (uint8-RoundTrips 0xfe) by_discriminant (
    RoundTrips-last (uint32-RoundTrips little_endian (v % 2 ^ 32) (omega arith))
      (check_canonical 0x10000) (check_canonical_pass 0x10000 _ v (omega arith) (omega arith)))

eight_bytes :
    (v : ℕ)
    → 0x100000000 < v + 1
    → v < 2 ^ 64
    → RoundTrips (write_uint8 0xff >> write_uint64 little_endian v) read_var_int v
unfolding read_var_int by_discriminant
eight_bytes v lo hi = RoundTrips-then (uint8-RoundTrips 0xff) by_discriminant (
    RoundTrips-last (uint64-RoundTrips little_endian v hi) (check_canonical 0x100000000)
      (check_canonical_pass 0x100000000 v v refl lo))

-- A number of 64 bits is read back, whatever follows it.
pub var_int-RoundTrips : (v : ℕ) → v < 2 ^ 64 → RoundTrips (write_var_int v) read_var_int v
unfolding write_var_int
var_int-RoundTrips v h = elim (Bool-cases (ltb v 0xfd)) [
  | inl small ↦ rw small (one_byte v (ground arith))
  | inr big ↦ rw big (elim (Bool-cases (leb v (2 ^ 16 - 1))) [
    | inl two ↦ rw two (two_bytes v (ground arith) (ground arith))
    | inr bigger ↦ rw bigger (elim (Bool-cases (leb v (2 ^ 32 - 1))) [
      | inl four ↦ rw four (four_bytes v (ground arith) (ground arith))
      | inr biggest ↦ rw biggest (eight_bytes v (ground arith) h)
    ])
  ])
]
