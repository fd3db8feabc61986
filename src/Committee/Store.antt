-- ===== src/Committee/Store.antt =====
-- pkg/core/consensus/committee/store.go and agreement.go: the provisioners with the sum of all stakes,
-- the messages that change them, and the sizes that a voting committee has.
pub mod Weighed
pub mod Sizes
use dusk_blockchain.Base.{
  ℕ, ◌+◌, ◌-◌, ◌*◌, ◌/◌, ◌%◌, ◌^◌, Bool, true, false, ltb, if◌then◌else◌, Option, none, some,
}
use dusk_blockchain.Encoding.Buffer.{Bytes, M, ok, err, pure, ◌>>=◌}
use dusk_blockchain.Encoding.MiscData.{read_256}
use dusk_blockchain.Encoding.VarData.{read_var_bytes}
use dusk_blockchain.Encoding.Integers.{little_endian, read_uint64}
use dusk_blockchain.Committee.Provisioners.{
  Stake, Provisioners, Added, added, refused, nil_member, add_member, get_stake, remove,
  remove_expired, size,
}

pub record Store (PublicKey : Type 0) : Type 0 where
  pub provisioners : Provisioners PublicKey
  pub total_weight : ℕ

-- The message of a new provisioner.
pub record NewProvisioner : Type 0 where
  pub pub_key_ed : Bytes
  pub pub_key_bls : Bytes
  pub stake : Stake

unfoldable pub decode_new_provisioner : M NewProvisioner
decode_new_provisioner = do
  pub_key_ed ← read_256
  pub_key_bls ← read_var_bytes
  amount ← read_uint64 little_endian
  start_height ← read_uint64 little_endian
  end_height ← read_uint64 little_endian
  pure record {
    pub_key_ed = pub_key_ed;
    pub_key_bls = pub_key_bls;
    stake = record { amount = amount; start_height = start_height; end_height = end_height };
  }

abbrev pub committee_size : ℕ
committee_size = 64

module _ {PublicKey : Type 0} where
  -- AddProvisioner after the call of AddMember: the stake counts unless that returned an error.
  unfoldable pub settle : Store PublicKey → ℕ → Provisioners PublicKey → Added → Store PublicKey
  settle s amount p added = record {
    provisioners = p;
    total_weight = (s.total_weight + amount) % 2 ^ 64;
  }
  settle s amount p refused = record s { provisioners = p }
  settle s amount p nil_member = record s { provisioners = p }

  module _ (unmarshal : Bytes → Option PublicKey) where
    unfoldable pub add_decoded : Store PublicKey → NewProvisioner → Store PublicKey × Added
    add_decoded s n =
        let (p, result) = add_member unmarshal s.provisioners n.pub_key_ed n.pub_key_bls n.stake in
        (settle s n.stake.amount p result, result)

    -- The message is read to where it ends; one that does not decode is an error and changes nothing.
    unfoldable pub add_provisioner : Store PublicKey → Bytes → Store PublicKey × Added
    add_provisioner s m = elim (decode_new_provisioner m) [
      | err e rest ↦ (s, refused)
      | ok n rest ↦ add_decoded s n
    ]

  -- The store after the call, and whether the call returned without an error.
  unfoldable pub remove_provisioner : Store PublicKey → Bytes → Store PublicKey × Bool
  remove_provisioner s key = elim (get_stake s.provisioners key) [
    | none ↦ (s, false)
    | some stake ↦ (
      record {
        provisioners = (remove s.provisioners key).0;
        total_weight = (s.total_weight + 2 ^ 64 - stake) % 2 ^ 64;
      },
      true,
    )
  ]

  -- At the round that the message gives.
  unfoldable pub remove_expired_provisioners : Store PublicKey → ℕ → Store PublicKey
  remove_expired_provisioners s round =
      let (p, removed) = remove_expired s.provisioners round in
      record { provisioners = p; total_weight = (s.total_weight + 2 ^ 64 - removed) % 2 ^ 64 }

  -- `size` of the agreement and of the reduction committee.
  unfoldable pub voting_size : Store PublicKey → ℕ → Store PublicKey × ℕ
  voting_size s round =
      let (p, n) = size s.provisioners round in
      (record s { provisioners = p }, if ltb committee_size n then committee_size else n)

  -- `int(float64(size) * 0.75)`: the product of a number up to 64 is exact, and `int` rounds it down.
  unfoldable pub quorum : Store PublicKey → ℕ → Store PublicKey × ℕ
  quorum s round = let (s', n) = voting_size s round in (s', n * 3 / 4)
