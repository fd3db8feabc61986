-- ===== src/Encoding/Integers.antt =====
-- pkg/p2p/wire/encoding/integers.go: fixed-width integers in either byte order.
pub mod Digits
pub mod RoundTrip
use dusk_blockchain.Base.{
  ℕ, zero, suc, ◌+◌, ◌*◌, ◌/◌, ◌%◌, ◌^◌, ◌<◌, ◌≡◌, refl, sym, ap, ◌∙◌, arith, subst, List, [], ◌∷◌,
  ◌++◌, length, length-append, append-nil,
}
use dusk_blockchain.Encoding.Buffer.{
  Bytes, AllBytes, M, ok, ◌>>=◌, ◌>>◌, >>=-eq-ok, pure, read_all, write, read_all-append,
  read_all-ok,
}
use dusk_blockchain.Encoding.Codec.{RoundTrips, RoundTrips-bind, write-Reads}
use native.Mathlib.Nat.{pow-suc}
use mathlib.Core.List.{reverse, reverse-cons, reverse-reverse}

-- binary.ByteOrder.
pub data ByteOrder : Type 0 where
  little_endian big_endian : ByteOrder

-- `n` bytes of `v`, the lowest first, and the number that such bytes stand for.
unfoldable pub digits : ℕ → ℕ → Bytes
digits zero v = []
digits (suc n) v = (v % 256) ∷ digits n (v / 256)

unfoldable pub value : Bytes → ℕ
value [] = 0
value (b ∷ bs) = b + 256 * value bs

-- `o.PutUintN` and `o.UintN`.
unfoldable pub put_uint : ByteOrder → ℕ → ℕ → Bytes
put_uint little_endian n v = digits n v
put_uint big_endian n v = reverse (digits n v)

unfoldable pub uint : ByteOrder → Bytes → ℕ
uint little_endian bs = value bs
uint big_endian bs = value (reverse bs)

unfoldable pub read_uint8 : M ℕ
read_uint8 = do bs ← read_all 1; pure (value bs)

unfoldable pub read_uint16 : ByteOrder → M ℕ
read_uint16 o = do bs ← read_all 2; pure (uint o bs)

unfoldable pub read_uint32 : ByteOrder → M ℕ
read_uint32 o = do bs ← read_all 4; pure (uint o bs)

unfoldable pub read_uint64 : ByteOrder → M ℕ
read_uint64 o = do bs ← read_all 8; pure (uint o bs)

unfoldable pub write_uint8 : ℕ → M (Unit {0})
write_uint8 v = write (v ∷ [])

unfoldable pub write_uint16 : ByteOrder → ℕ → M (Unit {0})
write_uint16 o v = write (put_uint o 2 v)

unfoldable pub write_uint32 : ByteOrder → ℕ → M (Unit {0})
write_uint32 o v = write (put_uint o 4 v)

unfoldable pub write_uint64 : ByteOrder → ℕ → M (Unit {0})
write_uint64 o v = write (put_uint o 8 v)
