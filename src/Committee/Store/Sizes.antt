-- ===== src/Committee/Store/Sizes.antt =====
-- The size of a voting committee and its quorum, of agreement.go and of the reduction's committee.go.
use dusk_blockchain.Base.{ℕ, ◌+◌, ◌*◌, ◌≤◌, ◌<◌, arith}
use dusk_blockchain.Base.Assoc.{nat_key}
use dusk_blockchain.Committee.Store.{Store, voting_size, quorum}

module _ {PublicKey : Type 0} where
  -- A voting committee has at most 64 members; a quorum is three quarters of it, rounded down, and more
  -- than half of it once it has three members.
  pub quorum_bounds :
      (s : Store PublicKey) (round : ℕ)
      → let n = (voting_size s round).1 in
        let q = (quorum s round).1 in
        (n ≤ 64) × (4 * q ≤ 3 * n) × (3 * n < 4 * q + 4) × (3 ≤ n → n < 2 * q)
  unfolding quorum voting_size
  quorum_bounds s round = ground arith
