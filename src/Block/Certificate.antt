-- ===== src/Block/Certificate.antt =====
-- pkg/core/block/certificate.go: the proof of agreement that a block carries.
use dusk_blockchain.Base.{
  ℕ, ◌^◌, ◌<◌, ◌≡◌, ◌↔◌, refl, arith, Bool, true, ◌&&◌, ◌==◌, length, replicate,
}
use dusk_blockchain.Encoding.Buffer.{Bytes, M, ◌>>=◌, ◌>>◌, pure, equal, equal→eq, equal_refl}
use dusk_blockchain.Encoding.Codec.{RoundTrips, RoundTrips-then, RoundTrips-bind}
use dusk_blockchain.Encoding.Integers.{
  little_endian, read_uint8, read_uint64, write_uint8, write_uint64,
}
use dusk_blockchain.Encoding.Integers.RoundTrip.{uint8-RoundTrips, uint64-RoundTrips}
use dusk_blockchain.Encoding.MiscData.{read_bls, write_bls, read_bls-RoundTrips}

pub record Certificate : Type 0 where
  pub step_one_batched_sig : Bytes
  pub step_two_batched_sig : Bytes
  pub step : ℕ
  pub step_one_committee : ℕ
  pub step_two_committee : ℕ

unfoldable pub empty_certificate : Certificate
empty_certificate = record {
  step_one_batched_sig = replicate 33 0;
  step_two_batched_sig = replicate 33 0;
  step = 0;
  step_one_committee = 0;
  step_two_committee = 0;
}

unfoldable pub encode : Certificate → M (Unit {0})
encode c = do
  write_bls c.step_one_batched_sig
  write_bls c.step_two_batched_sig
  write_uint8 c.step
  write_uint64 little_endian c.step_one_committee
  write_uint64 little_endian c.step_two_committee

unfoldable pub decode : M Certificate
decode = do
  one ← read_bls
  two ← read_bls
  step ← read_uint8
  one_committee ← read_uint64 little_endian
  two_committee ← read_uint64 little_endian
  pure (record {
    step_one_batched_sig = one;
    step_two_batched_sig = two;
    step = step;
    step_one_committee = one_committee;
    step_two_committee = two_committee;
  })

-- `other` is never nil: the header of a decoded block has a certificate.
unfoldable pub equals : Certificate → Certificate → Bool
equals c other =
    equal c.step_one_batched_sig other.step_one_batched_sig
    && equal c.step_two_batched_sig other.step_two_batched_sig
    && c.step == other.step
    && c.step_one_committee == other.step_one_committee
    && c.step_two_committee == other.step_two_committee

pub record IsWellSized (c : Certificate) : Type 0 where
  pub one : length c.step_one_batched_sig ≡ 33
  pub two : length c.step_two_batched_sig ≡ 33
  pub one_committee : c.step_one_committee < 2 ^ 64
  pub two_committee : c.step_two_committee < 2 ^ 64

pub certificate-RoundTrips : (c : Certificate) → IsWellSized c → RoundTrips (encode c) decode c
unfolding encode decode
certificate-RoundTrips c v = RoundTrips-then (read_bls-RoundTrips c.step_one_batched_sig v.one) _ (
    RoundTrips-then (read_bls-RoundTrips c.step_two_batched_sig v.two) _ (
      RoundTrips-then (uint8-RoundTrips c.step) _ (
        RoundTrips-then (uint64-RoundTrips little_endian c.step_one_committee v.one_committee) _ (
          RoundTrips-bind (uint64-RoundTrips little_endian c.step_two_committee v.two_committee) _
            refl))))

-- `Equals` decides equality.
pub equals_iff : (c d : Certificate) → (equals c d ≡ true) ↔ (c ≡ d)
unfolding equals
equals_iff c d = (
  λ h. ground (
    arith,
    equal→eq c.step_one_batched_sig d.step_one_batched_sig,
    equal→eq c.step_two_batched_sig d.step_two_batched_sig,
  ),
  λ e.
      rw (← e)
        (ground (arith, equal_refl c.step_one_batched_sig, equal_refl c.step_two_batched_sig)),
)
