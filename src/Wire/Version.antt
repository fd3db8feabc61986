-- ===== src/Wire/Version.antt =====
-- pkg/p2p/wire/protocol/version.go, and the version message of pkg/p2p/peer/version.go.
use dusk_blockchain.Base.{ℕ, ◌^◌, ◌<◌, refl}
use dusk_blockchain.Encoding.Buffer.{M, ◌>>=◌, ◌>>◌, pure}
use dusk_blockchain.Encoding.Codec.{RoundTrips, RoundTrips-then, RoundTrips-bind}
use dusk_blockchain.Encoding.Integers.{
  little_endian, read_uint8, read_uint16, read_uint64, write_uint8, write_uint16, write_uint64,
}
use dusk_blockchain.Encoding.Integers.RoundTrip.{
  uint8-RoundTrips, uint16-RoundTrips, uint64-RoundTrips,
}

pub record Version : Type 0 where
  pub major : ℕ
  pub minor : ℕ
  pub patch : ℕ

unfoldable pub encode : Version → M (Unit {0})
encode v = do write_uint8 v.major; write_uint8 v.minor; write_uint16 little_endian v.patch

unfoldable pub decode : M Version
decode = do
  major ← read_uint8
  minor ← read_uint8
  patch ← read_uint16 little_endian
  pure (record { major = major; minor = minor; patch = patch })

-- An int64 timestamp is its bit pattern, which the conversions from and to uint64 keep.
pub record VersionMessage : Type 0 where
  pub version : Version
  pub timestamp : ℕ
  pub services : ℕ

-- `now` is `time.Now().Unix()`.
unfoldable pub new_version_message_buffer : Version → ℕ → ℕ → M (Unit {0})
new_version_message_buffer v now services = do
  encode v
  write_uint64 little_endian now
  write_uint64 little_endian services

unfoldable pub decode_version_message : M VersionMessage
decode_version_message = do
  v ← decode
  time ← read_uint64 little_endian
  services ← read_uint64 little_endian
  pure (record { version = v; timestamp = time; services = services })

version-RoundTrips : (v : Version) → v.patch < 2 ^ 16 → RoundTrips (encode v) decode v
unfolding encode decode
version-RoundTrips v h = RoundTrips-then (uint8-RoundTrips v.major) _ (
    RoundTrips-then (uint8-RoundTrips v.minor) _
      (RoundTrips-bind (uint16-RoundTrips little_endian v.patch h) _ refl))

-- A version message is read back with its version, its time and its services.
pub version_message-RoundTrips :
    (v : Version) (now services : ℕ)
    → v.patch < 2 ^ 16
    → now < 2 ^ 64
    → services < 2 ^ 64
    → RoundTrips
        (new_version_message_buffer v now services)
        decode_version_message
        (record { version = v; timestamp = now; services = services })
unfolding new_version_message_buffer decode_version_message
version_message-RoundTrips v now services hv hn hs = RoundTrips-then (version-RoundTrips v hv) _ (
    RoundTrips-then (uint64-RoundTrips little_endian now hn) _
      (RoundTrips-bind (uint64-RoundTrips little_endian services hs) _ refl))
