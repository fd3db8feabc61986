-- ===== src/Committee/Provisioners.antt =====
-- pkg/core/consensus/user/provisioners.go: the stakers, in a map by BLS key and in a sorted set of the
-- same keys. Amounts are uint64 and wrap around. The BLS library is a parameter: a key that it does not
-- unmarshal is `none`.
pub mod Weight
pub mod Expiry
pub mod Consistent
pub mod Adding
pub mod Sweeping
use dusk_blockchain.Base.{
  ℕ, zero, suc, ◌+◌, ◌-◌, ◌*◌, ◌%◌, ◌^◌, Bool, true, false, ◌&&◌, ◌||◌, not, ◌==◌, ltb, leb,
  if◌then◌else◌, List, [], ◌∷◌, ◌++◌, Option, none, some, length, get_elem?, set, take,
}
use dusk_blockchain.Base.Assoc.{nat_key, lookup, insert, delete}
use dusk_blockchain.Encoding.Buffer.{Bytes, bytes_key}
use dusk_blockchain.SortedSet.{Set, set_bytes}
use dusk_blockchain.SortedSet

pub record Stake : Type 0 where
  pub amount : ℕ
  pub start_height : ℕ
  pub end_height : ℕ

pub record Member (PublicKey : Type 0) : Type 0 where
  pub public_key_ed : Bytes
  pub public_key_bls : PublicKey
  pub stakes : List Stake

pub record Provisioners (PublicKey : Type 0) : Type 0 where
  pub set : Set
  pub members : List (Bytes × Member PublicKey)
  pub size_cache : List (ℕ × ℕ)

-- What AddMember returns: nil, an error, or no return at all when it reaches for a missing member.
pub data Added : Type 0 where
  added : Added
  refused : Added
  nil_member : Added

-- The loop of GetStake, from the total so far.
unfoldable pub total_stake : List Stake → ℕ → ℕ
total_stake [] total = total
total_stake (s ∷ ss) total = total_stake ss ((total + s.amount) % 2 ^ 64)

-- Whether some stake has begun at the round.
unfoldable pub is_active : List Stake → ℕ → Bool
is_active [] round = false
is_active (s ∷ ss) round = leb s.start_height round || is_active ss round

-- Each pass of the loop of RemoveExpired takes at most one turn more than there are stakes, and each but
-- the last removes a stake.
abbrev pub passes : ℕ → ℕ
passes zero = 1
passes (suc n) = passes n + suc (suc n)

abbrev pub expire_fuel : List Stake → ℕ
expire_fuel ss = passes (length ss)

module _ {PublicKey : Type 0} where
  unfoldable pub add_stake : Member PublicKey → Stake → Member PublicKey
  add_stake m s = record m { stakes = m.stakes ++ (s ∷ []) }

  -- The last stake takes the place of the one removed. `none` is out of range.
  unfoldable pub remove_stake : Member PublicKey → ℕ → Option (Member PublicKey)
  remove_stake m idx = elim (get_elem? m.stakes (length m.stakes - 1)) [
    | none ↦ none
    | some last ↦ some (record m { stakes = take (length m.stakes - 1) (set m.stakes idx last) })
  ]

  unfoldable pub count_active : List (Bytes × Member PublicKey) → ℕ → ℕ
  count_active [] round = 0
  count_active ((pk, m) ∷ ms) round =
      (if is_active m.stakes round then 1 else 0) + count_active ms round

  unfoldable pub members_at : Provisioners PublicKey → ℕ → ℕ
  unfolding count_active is_active
  members_at p round = count_active p.members round

  unfoldable pub size : Provisioners PublicKey → ℕ → Provisioners PublicKey × ℕ
  size p round = elim (lookup round p.size_cache) [
    | some n ↦ (p, n)
    | none ↦ let n = members_at p round in (record p { size_cache = insert round n [] }, n)
  ]

  unfoldable pub get_member : Provisioners PublicKey → Bytes → Option (Member PublicKey)
  get_member p key = lookup key p.members

  unfoldable pub get_stake : Provisioners PublicKey → Bytes → Option ℕ
  unfolding total_stake
  get_stake p key =
      if not (length key == 129)
      then none
      else elim (lookup key p.members) [ none ↦ none | some m ↦ some (total_stake m.stakes 0) ]

  -- The provisioners after the call, and whether the key was in the set.
  unfoldable pub remove : Provisioners PublicKey → Bytes → Provisioners PublicKey × Bool
  remove p key =
      let (rest, found) = SortedSet.remove p.set (set_bytes key) in
      (record { set = rest; members = delete key p.members; size_cache = [] }, found)

  -- A key that is in the set already gets the stake added.
  unfoldable pub add_to_old :
      Provisioners PublicKey → Bytes → Stake → Provisioners PublicKey × Added
  add_to_old p key s = elim (lookup key p.members) [
    | none ↦ (p, nil_member)
    | some m ↦ (record p { members = insert key (add_stake m s) p.members }, added)
  ]

  module _ (unmarshal : Bytes → Option PublicKey) where
    unfoldable pub add_new :
        Provisioners PublicKey → Bytes → Bytes → Stake → Provisioners PublicKey × Added
    add_new p key_ed key s = elim (unmarshal key) [
      | none ↦ (p, refused)
      | some public_key ↦
          let m : Member PublicKey = record {
            public_key_ed = key_ed;
            public_key_bls = public_key;
            stakes = [];
          } in
          (record p { members = insert key (add_stake m s) p.members }, added)
    ]

    unfoldable pub add_member :
        Provisioners PublicKey → Bytes → Bytes → Stake → Provisioners PublicKey × Added
    add_member p key_ed key s =
        if not (length key_ed == 32) || not (length key == 129)
        then (p, refused)
        else let (grown, inserted) = SortedSet.insert p.set (set_bytes key) in
          if inserted
          then add_new (record p { set = grown }) key_ed key s
          else add_to_old (record p { set = grown }) key s

  -- The inner loop of RemoveExpired at index `i`: the member and the amount removed so far. It starts
  -- again whenever it has removed a stake.
  unfoldable pub expire_loop : ℕ → ℕ → Member PublicKey → ℕ → ℕ → Member PublicKey × ℕ
  expire_loop zero round m i total = (m, total)
  expire_loop (suc fuel) round m i total = elim (get_elem? m.stakes i) [
    | none ↦ (m, total)
    | some s ↦ elim (ltb s.end_height round) [
      | false ↦ expire_loop fuel round m (suc i) total
      | true ↦ elim (remove_stake m i) [
        | none ↦ (m, total)
        | some m' ↦ expire_loop fuel round m' 0 ((total + s.amount) % 2 ^ 64)
      ]
    ]
  ]

  unfoldable pub expire_member : ℕ → Member PublicKey → ℕ → Member PublicKey × ℕ
  expire_member round m total = expire_loop (expire_fuel m.stakes) round m 0 total

  -- A member left with no stakes by a removal is removed.
  unfoldable pub write_back :
      Provisioners PublicKey → Bytes → Member PublicKey → Member PublicKey → Provisioners PublicKey
  write_back p key before after =
      if length after.stakes == 0 && not (length before.stakes == 0)
      then (remove p key).0
      else record p { members = insert key after p.members }

  -- `range p.members`, over the entries that the map has when the loop starts; only the entry at hand
  -- is changed or removed.
  unfoldable pub expire_entries :
      ℕ → List (Bytes × Member PublicKey) → Provisioners PublicKey → ℕ → Provisioners PublicKey × ℕ
  expire_entries round [] p total = (p, total)
  expire_entries round ((key, m) ∷ es) p total =
      let (m', total') = expire_member round m total in
      expire_entries round es (write_back p key m m') total'

  unfoldable pub remove_expired : Provisioners PublicKey → ℕ → Provisioners PublicKey × ℕ
  unfolding expire_entries
  remove_expired p round = expire_entries round p.members p 0
