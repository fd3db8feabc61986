-- ===== src/Tests/Encoding.antt =====
-- pkg/p2p/wire/encoding and pkg/core/block at concrete values.
use dusk_blockchain.Base.{◌^◌, ◌<◌, ◌≡◌, refl, arith, [], ◌∷◌, ◌++◌}
use dusk_blockchain.Encoding.Buffer.{read_all, Bytes, ok, err, non_canonical, wrong_size}
use dusk_blockchain.Encoding.Codec.{RoundTrips}
use dusk_blockchain.Encoding.Integers.{big_endian, read_uint8, read_uint16, value, put_uint, uint}
use dusk_blockchain.Encoding.Integers.Digits.{uint-put_uint}
use dusk_blockchain.Encoding.VarInt.{by_discriminant, read_var_int, write_var_int}
use dusk_blockchain.Encoding.VarInt.RoundTrip.{var_int-RoundTrips}
use dusk_blockchain.Encoding.VarInt.Canonical.{read_var_int_canonical}
use dusk_blockchain.Encoding.VarData.{read_var_bytes, write_var_bytes, var_bytes-RoundTrips}
use dusk_blockchain.Encoding.MiscData.{write_sized, write_sized_refused}

-- 300 takes the 16-bit form; a number too small for that form is refused in it.
reads_300 : read_var_int (0xfd ∷ 0x2c ∷ 0x01 ∷ 7 ∷ []) ≡ ok 300 (7 ∷ [])
unfolding read_var_int by_discriminant read_uint8 read_uint16 read_all uint value
reads_300 = refl

refuses_12 : read_var_int (0xfd ∷ 12 ∷ 0 ∷ []) ≡ err non_canonical []
unfolding read_var_int by_discriminant read_uint8 read_uint16 read_all uint value
refuses_12 = refl

uint-put_uint_example : uint big_endian (put_uint big_endian 4 0x7630401f) ≡ 0x7630401f
uint-put_uint_example = uint-put_uint big_endian 4 0x7630401f (omega arith)

var_int-RoundTrips_example : RoundTrips (write_var_int 70000) read_var_int 70000
var_int-RoundTrips_example = var_int-RoundTrips 70000 (omega arith)

read_var_int_canonical_example :
    (front : Bytes) × (0xfd ∷ 0x2c ∷ 0x01 ∷ 7 ∷ [] ≡ front ++ (7 ∷ []))
    × (write_var_int 300 [] ≡ ok tt front)
    × (300 < 2 ^ 64)
read_var_int_canonical_example =
    read_var_int_canonical (0xfd ∷ 0x2c ∷ 0x01 ∷ 7 ∷ []) 300 (7 ∷ []) (omega arith) reads_300

var_bytes-RoundTrips_example : RoundTrips (write_var_bytes (1 ∷ 2 ∷ [])) read_var_bytes (1 ∷ 2 ∷ [])
var_bytes-RoundTrips_example = var_bytes-RoundTrips (1 ∷ 2 ∷ []) (omega arith)

write_sized_refused_example : write_sized 32 (1 ∷ []) (9 ∷ []) ≡ err wrong_size (9 ∷ [])
write_sized_refused_example = write_sized_refused 32 (1 ∷ []) (9 ∷ []) (omega arith)
