-- ===== src/Consensus/Header.antt =====
-- pkg/core/consensus/header/header.go: the header that every consensus event carries.
use dusk_blockchain.Base.{ℕ, ◌^◌, ◌<◌, ◌≤◌, ◌≡◌, refl, length}
use dusk_blockchain.Encoding.Buffer.{Bytes, M, ◌>>=◌, ◌>>◌, pure}
use dusk_blockchain.Encoding.Codec.{RoundTrips, RoundTrips-then, RoundTrips-bind}
use dusk_blockchain.Encoding.Integers.{
  little_endian, read_uint8, read_uint64, write_uint8, write_uint64,
}
use dusk_blockchain.Encoding.Integers.RoundTrip.{uint8-RoundTrips, uint64-RoundTrips}
use dusk_blockchain.Encoding.VarData.{read_var_bytes, write_var_bytes, var_bytes-RoundTrips}
use dusk_blockchain.Encoding.MiscData.{read_256, write_256, read_256-RoundTrips}

pub record Header : Type 0 where
  pub pub_key_bls : Bytes
  pub round : ℕ
  pub step : ℕ
  pub block_hash : Bytes

unfoldable pub sender : Header → Bytes
sender h = h.pub_key_bls

unfoldable pub marshal_signable_vote : Header → M (Unit {0})
marshal_signable_vote vote = do
  write_uint64 little_endian vote.round
  write_uint8 vote.step
  write_256 vote.block_hash

-- The reader fills the header that it is given.
unfoldable pub unmarshal_signable_vote : Header → M Header
unmarshal_signable_vote vote = do
  round ← read_uint64 little_endian
  step ← read_uint8
  hash ← read_256
  pure (record vote { round = round; step = step; block_hash = hash })

unfoldable pub marshal : Header → M (Unit {0})
marshal h = write_var_bytes h.pub_key_bls >> marshal_signable_vote h

unfoldable pub unmarshal : Header → M Header
unmarshal h = do key ← read_var_bytes; unmarshal_signable_vote (record h { pub_key_bls = key })

-- The fields fit their widths.
pub record IsWellSized (h : Header) : Type 0 where
  pub key : length h.pub_key_bls ≤ 2 ^ 48
  pub round : h.round < 2 ^ 64
  pub hash : length h.block_hash ≡ 32

pub signable_vote-RoundTrips :
    (old h : Header)
    → IsWellSized h
    → RoundTrips
        (marshal_signable_vote h)
        (unmarshal_signable_vote (record old { pub_key_bls = h.pub_key_bls }))
        h
unfolding marshal_signable_vote unmarshal_signable_vote
signable_vote-RoundTrips old h v =
    RoundTrips-then (uint64-RoundTrips little_endian h.round v.round) _ (
      RoundTrips-then (uint8-RoundTrips h.step) _
        (RoundTrips-bind (read_256-RoundTrips h.block_hash v.hash) _ refl))

-- A header is read back, into whatever header the reader is given.
pub header-RoundTrips : (old h : Header) → IsWellSized h → RoundTrips (marshal h) (unmarshal old) h
unfolding marshal unmarshal
header-RoundTrips old h v =
    RoundTrips-then (var_bytes-RoundTrips h.pub_key_bls v.key) _ (signable_vote-RoundTrips old h v)
