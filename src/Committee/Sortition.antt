-- ===== src/Committee/Sortition.antt =====
-- pkg/core/consensus/user/sortition.go: the voting committee of a round and step, drawn from the
-- provisioners by hashes. A panic and the lack of fuel are outcomes of their own. The hash function and
-- the marshalling of a BLS key are parameters.
pub mod Seats
pub mod Drawing
pub mod Election
use dusk_blockchain.Base.{
  ℕ, zero, suc, ◌+◌, ◌-◌, ◌*◌, ◌/◌, ◌%◌, ◌^◌, Bool, true, false, ◌==◌, ltb, leb, if◌then◌else◌,
  List, [], ◌∷◌, ◌++◌, Option, none, some, length, get_elem?,
}
use mathlib.Core.List.{reverse}
use dusk_blockchain.Base.Assoc.{lookup}
use dusk_blockchain.Encoding.Buffer.{Bytes, bytes_key}
use dusk_blockchain.Encoding.Integers.{little_endian, put_uint}
use dusk_blockchain.SortedSet.{Set, set_bytes}
use dusk_blockchain.SortedSet
use dusk_blockchain.Committee.Provisioners.{Member, Provisioners, get_stake, get_member, size}

pub data Draw (A : Type 0) : Type 0 where
  drawn : A → Draw A
  panics : Draw A
  runs_on : Draw A

infixl 5 ◌>>=◌
abbrev pub ◌>>=◌ : {A B : Type 0} → Draw A → (A → Draw B) → Draw B
drawn a >>= f = f a
panics >>= f = panics
runs_on >>= f = runs_on

-- Reaching for a value that is not there.
abbrev pub demand : {A : Type 0} → Option A → Draw A
demand none = panics
demand (some a) = drawn a

-- `new(big.Int).Bytes()` is the reverse of the digits up to the last that is not 0; there are at most
-- as many of them as the number.
unfoldable pub significant : ℕ → ℕ → Bytes
significant zero v = []
significant (suc fuel) v = elim (v == 0) [
  | true ↦ []
  | false ↦ (v % 256) ∷ significant fuel (v / 256)
]

unfoldable pub minimal_bytes : ℕ → Bytes
unfolding significant
minimal_bytes v = reverse (significant v v)

unfoldable pub create_sortition_hash : (Bytes → Option Bytes) → ℕ → ℕ → ℕ → Option Bytes
create_sortition_hash hash round step i =
    hash (put_uint little_endian 8 round ++ (put_uint little_endian 4 (i % 2 ^ 32) ++ (step ∷ [])))

-- A remainder by 0 is a panic of big.Int.
unfoldable pub generate_sortition_score : Bytes → ℕ → Draw ℕ
generate_sortition_score hash w = if w == 0 then panics else drawn (set_bytes hash % w)

-- `if i >= p.Size(round) { i = 0 }`.
abbrev pub wrap : ℕ → ℕ → ℕ
wrap n i = if leb n i then 0 else i

module _ {PublicKey : Type 0} (marshal : PublicKey → Bytes) (p : Provisioners PublicKey) where
  unfoldable pub member_at : ℕ → Draw (Member PublicKey)
  member_at i = do k ← demand (get_elem? p.set i); demand (get_member p (minimal_bytes k))

  module _ (n : ℕ) where
    -- `n` is the size of the round, which every call of Size finds in the cache after the first.
    unfoldable pub extract_committee_member : ℕ → ℕ → ℕ → Draw (ℕ × PublicKey)
    extract_committee_member zero i score = runs_on
    extract_committee_member (suc fuel) i score = do
      m ← member_at (wrap n i)
      stake ← demand (get_stake p (marshal m.public_key_bls))
      elim (leb score stake) [
        | true ↦ drawn (wrap n i, m.public_key_bls)
        | false ↦ extract_committee_member fuel (suc (wrap n i)) (score - stake)
      ]

    -- The inner loop: the next provisioner who is not in the committee yet.
    unfoldable pub insert_next : ℕ → ℕ → Set → Draw Set
    insert_next zero i c = runs_on
    insert_next (suc fuel) i c = do
      m ← member_at (wrap n (suc i))
      let added = SortedSet.insert c (set_bytes (marshal m.public_key_bls))
      elim added.1 [ true ↦ drawn added.0 | false ↦ insert_next fuel (wrap n (suc i)) c ]

    -- The member drawn goes in, or the next that can.
    unfoldable pub insert_drawn : Set → ℕ → PublicKey → Draw Set
    insert_drawn c i pk =
        let added = SortedSet.insert c (set_bytes (marshal pk)) in
        elim added.1 [ true ↦ drawn added.0 | false ↦ insert_next (suc n) i c ]

    module _ (hash : Bytes → Option Bytes) (round total_weight step : ℕ) where
      -- One pass of the loop of CreateVotingCommittee. The score falls by a stake at each provisioner.
      unfoldable pub draw_member : ℕ → Set → Draw Set
      draw_member i c = do
        h ← demand (create_sortition_hash hash round step i)
        score ← generate_sortition_score h total_weight
        at ← extract_committee_member (suc score) 0 score
        insert_drawn c at.0 at.1

      unfoldable pub draw_members : ℕ → ℕ → ℕ → Set → Draw Set
      draw_members zero wanted i c = if ltb (length c) wanted then runs_on else drawn c
      draw_members (suc fuel) wanted i c = elim (ltb (length c) wanted) [
        | false ↦ drawn c
        | true ↦ do c' ← draw_member i c; draw_members fuel wanted (suc i) c'
      ]

  -- The committee has as many members as `wanted`, and each pass adds one.
  unfoldable pub create_voting_committee : (Bytes → Option Bytes) → ℕ → ℕ → ℕ → ℕ → Draw Set
  create_voting_committee hash round total_weight step wanted =
      draw_members (size p round).1 hash round total_weight step wanted wanted 0 []
