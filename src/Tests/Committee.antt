-- ===== src/Tests/Committee.antt =====
-- The provisioners, the store and the list of bids at concrete inputs.
use dusk_blockchain.Base.{
  ℕ, zero, suc, ◌<◌, ◌≡◌, ◌%◌, ◌^◌, ◌+◌, ◌*◌, ◌≤◌, refl, arith, false, List, [], ◌∷◌, ◌++◌, Option,
  some, replicate,
}
use dusk_blockchain.Encoding.Buffer.{Bytes, AllBytes, equal}
use dusk_blockchain.Consensus.AccumulatorStore.{Distinct}
use dusk_blockchain.Committee.Provisioners.{
  Stake, Provisioners, added, add_member, add_new, get_stake, remove_expired,
}
use dusk_blockchain.Base.Assoc.{lookup}
use dusk_blockchain.SortedSet.{insert, index_of, search}
use dusk_blockchain.Committee.Provisioners.Consistent.{Consistent}
use dusk_blockchain.Committee.Provisioners.Adding.{add_member-AddedTo, add_member_stake, or_zero}
use dusk_blockchain.Committee.Provisioners.Sweeping.{Swept, remove_expired-Swept}
use dusk_blockchain.Committee.Store.{Store, quorum, voting_size}
use dusk_blockchain.Committee.Store.Weighed.{
  Weighed, Message, adds, starts, removes, handle_all, handle_all-Weighed,
}
use dusk_blockchain.Committee.Store.Sizes.{quorum_bounds}
use dusk_blockchain.Committee.BidList.{Bid, equals}

-- A BLS library that takes every key as it is.
abbrev trusting : Bytes → Option Bytes
trusting key = some key

abbrev no_provisioners : Provisioners Bytes
no_provisioners = record { set = []; members = []; size_cache = [] }

abbrev empty_store : Store Bytes
empty_store = record { provisioners = no_provisioners; total_weight = 0 }

no_provisioners-Consistent : Consistent no_provisioners.set no_provisioners.members
unfolding lookup
no_provisioners-Consistent = record {
  unique = tt;
  increasing = tt;
  keyed = λ key m h. absurd (ground arith);
}

abbrev key_ed : Bytes
key_ed = replicate 32 1

abbrev pub key : Bytes
key = replicate 129 2

pub AllBytes-replicate : (n b : ℕ) → b < 256 → AllBytes (replicate n b)
AllBytes-replicate zero b h = tt
AllBytes-replicate (suc n) b h = (h, AllBytes-replicate n b h)

abbrev stake : Stake
stake = record { amount = 500; start_height = 3; end_height = 20 }

abbrev one : Provisioners Bytes
one = (add_member trusting no_provisioners key_ed key stake).0

adds_one : (add_member trusting no_provisioners key_ed key stake).1 ≡ added
unfolding add_member add_new insert index_of search
adds_one = refl

add_member_stake_example :
    (get_stake one key ≡ some ((or_zero (get_stake no_provisioners key) + 500) % 2 ^ 64))
    × ((j : Bytes) → equal key j ≡ false → get_stake one j ≡ get_stake no_provisioners j)
add_member_stake_example =
    add_member_stake trusting no_provisioners key_ed key stake no_provisioners-Consistent
      (AllBytes-replicate 129 2 (omega arith)) adds_one

one-Consistent : Consistent one.set one.members
one-Consistent =
    (add_member-AddedTo trusting no_provisioners key_ed key stake no_provisioners-Consistent
      (AllBytes-replicate 129 2 (omega arith))).consistent

remove_expired-Swept_example :
    Swept 21 one.members one 0 (remove_expired one 21).0 (remove_expired one 21).1
remove_expired-Swept_example = remove_expired-Swept 21 one one-Consistent

abbrev number : ℕ → Bytes
number n = n ∷ replicate 7 0

-- A message for a new provisioner who stakes 200 from height 3 to height 20.
abbrev message : Bytes
message = key_ed ++ (129 ∷ key) ++ number 200 ++ number 3 ++ number 20

abbrev messages : List Message
messages = adds message ∷ starts 7 ∷ removes key_ed ∷ starts 21 ∷ []

handle_all-Weighed_example : Weighed (handle_all trusting empty_store messages)
handle_all-Weighed_example =
    handle_all-Weighed trusting messages empty_store (omega arith, (tt, (tt, (tt, tt))))
      record { consistent = no_provisioners-Consistent; total = omega arith }

quorum_bounds_example :
    let n = (voting_size empty_store 5).1 in
    let q = (quorum empty_store 5).1 in
    (n ≤ 64) × (4 * q ≤ 3 * n) × (3 * n < 4 * q + 4) × (3 ≤ n → n < 2 * q)
quorum_bounds_example = quorum_bounds empty_store 5

abbrev bid : ℕ → Bid
bid n = record { x = replicate 32 n; end_height = 100 }

abbrev bids : List Bid
bids = bid 4 ∷ bid 5 ∷ []

bids-Distinct : Distinct equals bids
unfolding equals equal
bids-Distinct = ((refl, tt), (tt, tt))

abbrev two_bids : Bytes
two_bids = replicate 64 9
