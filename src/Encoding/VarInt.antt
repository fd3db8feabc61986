-- ===== src/Encoding/VarInt.antt =====
-- pkg/p2p/wire/encoding/varint.go: CompactSize integers, in their shortest form only.
pub mod RoundTrip
pub mod Canonical
use dusk_blockchain.Base.{
  ℕ, ◌+◌, ◌%◌, ◌^◌, ◌<◌, ◌-◌, ◌≡◌, refl, arith, subst, true, false, inl, inr, ltb, leb, ◌==◌,
  if◌then◌else◌, Bool-cases, ltb→lt, leb→le, length, List, [], ◌∷◌, ◌++◌,
}
use dusk_blockchain.Encoding.Buffer.{
  Bytes, AllBytes, M, ok, non_canonical, fail, ◌>>=◌, ◌>>◌, >>=-eq-ok, pure,
}
use dusk_blockchain.Encoding.Codec.{RoundTrips, RoundTrips-then, RoundTrips-last}
use dusk_blockchain.Encoding.Integers.{
  little_endian, read_uint8, read_uint16, read_uint32, read_uint64, write_uint8, write_uint16,
  write_uint32, write_uint64, put_uint,
}

-- The canonical encoding check: `least` is the first number that needs this width.
unfoldable pub check_canonical : ℕ → ℕ → M ℕ
check_canonical least rv = if ltb rv least then fail non_canonical else pure rv

-- `switch d`.
unfoldable pub by_discriminant : ℕ → M ℕ
unfolding check_canonical
by_discriminant d =
    if d == 0xff
    then (read_uint64 little_endian >>= check_canonical 0x100000000)
    else if d == 0xfe
    then (read_uint32 little_endian >>= check_canonical 0x10000)
    else if d == 0xfd
    then (read_uint16 little_endian >>= check_canonical 0xfd)
    else pure d

unfoldable pub read_var_int : M ℕ
read_var_int = read_uint8 >>= by_discriminant

-- `uint8(v)`, `uint16(v)` and `uint32(v)` are remainders.
unfoldable pub write_var_int : ℕ → M (Unit {0})
write_var_int v =
    if ltb v 0xfd
    then write_uint8 (v % 2 ^ 8)
    else if leb v (2 ^ 16 - 1)
    then (write_uint8 0xfd >> write_uint16 little_endian (v % 2 ^ 16))
    else if leb v (2 ^ 32 - 1)
    then (write_uint8 0xfe >> write_uint32 little_endian (v % 2 ^ 32))
    else (write_uint8 0xff >> write_uint64 little_endian v)

unfoldable pub var_int_encode_size : ℕ → ℕ
var_int_encode_size v =
    if ltb v 0xfd then 1 else if leb v (2 ^ 16 - 1) then 3 else if leb v (2 ^ 32 - 1) then 5 else 9
