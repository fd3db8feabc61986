-- ===== src/Encoding/MiscData.antt =====
-- pkg/p2p/wire/encoding/miscdata.go: booleans, and values of a fixed size.
use dusk_blockchain.Base.{
  ℕ, ◌≡◌, ◌≢◌, refl, arith, Bool, true, false, not, ◌==◌, if◌then◌else◌, length,
}
use dusk_blockchain.Encoding.Buffer.{Bytes, M, err, wrong_size, fail, ◌>>=◌, pure, read_all, write}
use dusk_blockchain.Encoding.Codec.{RoundTrips, RoundTrips-bind, write-Reads}
use dusk_blockchain.Encoding.Integers.{read_uint8, write_uint8}
use dusk_blockchain.Encoding.Integers.RoundTrip.{uint8-RoundTrips}

unfoldable pub read_bool : M Bool
read_bool = do v ← read_uint8; pure (not (v == 0))

unfoldable pub write_bool : Bool → M (Unit {0})
write_bool b = write_uint8 (if b then 1 else 0)

-- `Write256`, `Write512` and `WriteBLS` check the length first.
unfoldable pub write_sized : ℕ → Bytes → M (Unit {0})
write_sized n b = if length b == n then write b else fail wrong_size

unfoldable pub read_256 : M Bytes
read_256 = read_all 32

unfoldable pub write_256 : Bytes → M (Unit {0})
unfolding write_sized
write_256 b = write_sized 32 b

unfoldable pub read_512 : M Bytes
read_512 = read_all 64

unfoldable pub write_512 : Bytes → M (Unit {0})
unfolding write_sized
write_512 b = write_sized 64 b

unfoldable pub read_bls : M Bytes
read_bls = read_all 33

unfoldable pub write_bls : Bytes → M (Unit {0})
unfolding write_sized
write_bls b = write_sized 33 b

pub write_sized_ok : (n : ℕ) (b : Bytes) → length b ≡ n → write_sized n b ≡ write b
unfolding write_sized
write_sized_ok n b h = ground arith

-- A value of another size is refused, and the buffer is left as it was.
pub write_sized_refused :
    (n : ℕ) (b buf : Bytes) → length b ≢ n → write_sized n b buf ≡ err wrong_size buf
unfolding write_sized
write_sized_refused n b buf h = ground arith

sized : (n : ℕ) (b : Bytes) → length b ≡ n → RoundTrips (write_sized n b) (read_all n) b
sized n b h = rw (write_sized_ok n b h) (write-Reads n b h)

pub bool-RoundTrips : (b : Bool) → RoundTrips (write_bool b) read_bool b
unfolding read_bool write_bool
bool-RoundTrips true = RoundTrips-bind (uint8-RoundTrips 1) (λ v. not (v == 0)) refl
bool-RoundTrips false = RoundTrips-bind (uint8-RoundTrips 0) (λ v. not (v == 0)) refl

module _ (b : Bytes) where
  pub read_256-RoundTrips : length b ≡ 32 → RoundTrips (write_256 b) read_256 b
  unfolding read_256 write_256
  read_256-RoundTrips h = sized 32 b h

  pub read_512-RoundTrips : length b ≡ 64 → RoundTrips (write_512 b) read_512 b
  unfolding read_512 write_512
  read_512-RoundTrips h = sized 64 b h

  pub read_bls-RoundTrips : length b ≡ 33 → RoundTrips (write_bls b) read_bls b
  unfolding read_bls write_bls
  read_bls-RoundTrips h = sized 33 b h
