-- ===== src/Block/Header.antt =====
-- pkg/core/block/header.go: a block's header, its hashed part and its whole encoding.
use dusk_blockchain.Base.{ℕ, ◌^◌, ◌<◌, ◌≡◌, ◌↔◌, refl, arith, [], Bool, true, ◌&&◌, ◌==◌, length}
use dusk_blockchain.Encoding.Buffer.{
  Bytes, M, Outcome, ok, err, ◌>>=◌, ◌>>◌, pure, equal, equal→eq, equal_refl, >>_assoc,
}
use dusk_blockchain.Encoding.Codec.{RoundTrips, RoundTrips-then, RoundTrips-bind}
use dusk_blockchain.Encoding.Integers.{
  little_endian, read_uint8, read_uint64, write_uint8, write_uint64,
}
use dusk_blockchain.Encoding.Integers.RoundTrip.{uint8-RoundTrips, uint64-RoundTrips}
use dusk_blockchain.Encoding.MiscData.{
  read_bls, write_bls, read_bls-RoundTrips, read_256, write_256, read_256-RoundTrips,
}
use dusk_blockchain.Block.Certificate
use dusk_blockchain.Block.Certificate.{Certificate, certificate-RoundTrips, equals_iff}

-- An int64 timestamp is its bit pattern, which the conversions from and to uint64 keep.
pub record Header : Type 0 where
  pub version : ℕ
  pub height : ℕ
  pub timestamp : ℕ
  pub prev_block_hash : Bytes
  pub seed : Bytes
  pub tx_root : Bytes
  pub certificate : Certificate
  pub hash : Bytes

unfoldable pub encode_hashable : Header → M (Unit {0})
encode_hashable b = do
  write_uint8 b.version
  write_uint64 little_endian b.height
  write_uint64 little_endian b.timestamp
  write_256 b.prev_block_hash
  write_bls b.seed

-- `sha3_256` is the hash of golang.org/x/crypto, behind pkg/crypto/hash.
unfoldable pub set_hash : (Bytes → Bytes) → Header → Outcome Header
set_hash sha3_256 b = elim (encode_hashable b []) [
  | ok _ bs ↦ ok (record b { hash = sha3_256 bs }) bs
  | err e bs ↦ err e bs
]

unfoldable pub encode : Header → M (Unit {0})
encode b = do
  encode_hashable b
  write_256 b.tx_root
  Certificate.encode b.certificate
  write_256 b.hash

unfoldable pub decode : M Header
decode = do
  version ← read_uint8
  height ← read_uint64 little_endian
  timestamp ← read_uint64 little_endian
  prev_block_hash ← read_256
  seed ← read_bls
  tx_root ← read_256
  certificate ← Certificate.decode
  hash ← read_256
  pure (record {
    version = version;
    height = height;
    timestamp = timestamp;
    prev_block_hash = prev_block_hash;
    seed = seed;
    tx_root = tx_root;
    certificate = certificate;
    hash = hash;
  })

-- The heights are not compared.
unfoldable pub equals : Header → Header → Bool
equals b other =
    b.version == other.version
    && b.timestamp == other.timestamp
    && equal b.prev_block_hash other.prev_block_hash
    && equal b.seed other.seed
    && equal b.tx_root other.tx_root
    && Certificate.equals b.certificate other.certificate
    && equal b.hash other.hash

pub record IsWellSized (b : Header) : Type 0 where
  pub height : b.height < 2 ^ 64
  pub timestamp : b.timestamp < 2 ^ 64
  pub prev_block_hash : length b.prev_block_hash ≡ 32
  pub seed : length b.seed ≡ 33
  pub tx_root : length b.tx_root ≡ 32
  pub certificate : Certificate.IsWellSized b.certificate
  pub hash : length b.hash ≡ 32

-- A header of which every field fits its width is read back whole.
pub block_header-RoundTrips : (b : Header) → IsWellSized b → RoundTrips (encode b) decode b
unfolding encode encode_hashable decode
block_header-RoundTrips b v =
    rw (>>_assoc, >>_assoc, >>_assoc, >>_assoc)
      (RoundTrips-then (uint8-RoundTrips b.version) _ (
        RoundTrips-then (uint64-RoundTrips little_endian b.height v.height) _ (
          RoundTrips-then (uint64-RoundTrips little_endian b.timestamp v.timestamp) _ (
            RoundTrips-then (read_256-RoundTrips b.prev_block_hash v.prev_block_hash) _ (
              RoundTrips-then (read_bls-RoundTrips b.seed v.seed) _ (
                RoundTrips-then (read_256-RoundTrips b.tx_root v.tx_root) _ (
                  RoundTrips-then (certificate-RoundTrips b.certificate v.certificate) _
                    (RoundTrips-bind (read_256-RoundTrips b.hash v.hash) _ refl))))))))

-- `Equals` holds of two headers exactly when they agree in every field but the height.
pub equals_but_height :
    (b other : Header) → (equals b other ≡ true) ↔ (record b { height = other.height } ≡ other)
unfolding equals
equals_but_height b other = (
  λ h. ground (
    arith,
    equal→eq b.prev_block_hash other.prev_block_hash,
    equal→eq b.seed other.seed,
    equal→eq b.tx_root other.tx_root,
    (equals_iff b.certificate other.certificate).0,
    equal→eq b.hash other.hash,
  ),
  λ e. rw (← e) (
      ground (
        arith,
        equal_refl b.prev_block_hash,
        equal_refl b.seed,
        equal_refl b.tx_root,
        (equals_iff b.certificate b.certificate).1,
        equal_refl b.hash,
      )),
)
