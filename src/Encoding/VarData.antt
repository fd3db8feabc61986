-- ===== src/Encoding/VarData.antt =====
-- pkg/p2p/wire/encoding/vardata.go: byte strings behind their length. A Go string is its bytes.
use dusk_blockchain.Base.{ℕ, ◌^◌, ◌≤◌, ◌≡◌, false, ltb, if◌then◌else◌, refl, arith, length}
use dusk_blockchain.Encoding.Buffer.{Bytes, M, ◌>>=◌, ◌>>◌, read_all, write, panicked, fail}
use dusk_blockchain.Encoding.Codec.{RoundTrips, RoundTrips-then, write-Reads}
use dusk_blockchain.Encoding.VarInt.{read_var_int, write_var_int}
use dusk_blockchain.Encoding.VarInt.RoundTrip.{var_int-RoundTrips}

-- `make` panics on a slice of more than 2^48 bytes, the address space of a 64-bit platform.
abbrev pub max_bytes : ℕ
max_bytes = 2 ^ 48

unfoldable pub read_made : ℕ → M Bytes
read_made c = if ltb max_bytes c then fail panicked else read_all c

-- On a bytes.Buffer.
unfoldable pub read_var_bytes : M Bytes
read_var_bytes = read_var_int >>= read_made

-- `uint64(len(b))`.
unfoldable pub write_var_bytes : Bytes → M (Unit {0})
write_var_bytes bs = write_var_int (length bs) >> write bs

unfoldable pub read_string : M Bytes
read_string = read_var_bytes

unfoldable pub write_string : Bytes → M (Unit {0})
write_string s = write_var_bytes s

made-Reads : (bs : Bytes) → length bs ≤ max_bytes → RoundTrips (write bs) (read_made (length bs)) bs
unfolding read_made
made-Reads bs h =
    let small : ltb max_bytes (length bs) ≡ false = ground arith in
    rw small (write-Reads (length bs) bs refl)

-- A byte string, of any length that a Go slice can have, is read back whatever follows it.
pub var_bytes-RoundTrips :
    (bs : Bytes) → length bs ≤ max_bytes → RoundTrips (write_var_bytes bs) read_var_bytes bs
unfolding read_var_bytes write_var_bytes
var_bytes-RoundTrips bs h =
    RoundTrips-then (var_int-RoundTrips (length bs) (omega arith)) read_made (made-Reads bs h)
