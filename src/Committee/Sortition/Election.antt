-- ===== src/Committee/Sortition/Election.antt =====
-- CreateVotingCommittee of sortition.go on provisioners whose set and map have the same keys.
use dusk_blockchain.Base.{
  ℕ, zero, suc, ◌+◌, ◌*◌, ◌/◌, ◌%◌, ◌^◌, ◌≤◌, ◌<◌, ◌≡◌, refl, ap, ◌∙◌, arith, true, false, ◌==◌, [],
  ◌∷◌, Option, some, length,
}
use mathlib.Core.List.{reverse, reverse-reverse}
use dusk_blockchain.Base.Assoc.{lookup}
use dusk_blockchain.Encoding.Buffer.{Bytes, AllBytes, bytes_key}
use dusk_blockchain.Encoding.Integers.{value}
use dusk_blockchain.Encoding.Integers.Digits.{AllBytes-reverse}
use dusk_blockchain.SortedSet.{Set, set_bytes}
use dusk_blockchain.SortedSet.Search.{Increasing, has}
use dusk_blockchain.SortedSet.Bitset.{Subset}
use dusk_blockchain.Committee.Provisioners.{Member, Provisioners, get_member, size}
use dusk_blockchain.Committee.Provisioners.Expiry.{get_elem?-some}
use dusk_blockchain.Committee.Provisioners.Consistent.{Consistent, weight}
use dusk_blockchain.Committee.Provisioners.Adding.{stake_of_key}
use dusk_blockchain.Committee.Sortition.{
  drawn, significant, minimal_bytes, draw_members, create_voting_committee,
}
use dusk_blockchain.Committee.Sortition.Drawing.{Seat, has-get_elem?, draw_members_end}

-- The highest byte of a number, lowest byte first, is not 0.
abbrev pub EndsNonzero : Bytes → Type 0
EndsNonzero [] = ⊥
EndsNonzero (b ∷ []) = 0 < b
EndsNonzero (b ∷ c ∷ bs) = EndsNonzero (c ∷ bs)

length-le-value : (bs : Bytes) → EndsNonzero bs → length bs ≤ value bs
unfolding value
length-le-value [] e = elim e [ ]
length-le-value (b ∷ []) e = omega arith
length-le-value (b ∷ c ∷ bs) e = omega (arith, length-le-value (c ∷ bs) e)

significant_step :
    (fuel b w : ℕ)
    → b < 256
    → 0 < b + 256 * w
    → significant (suc fuel) (b + 256 * w) ≡ b ∷ significant fuel w
unfolding significant
significant_step fuel b w lt pos =
    let nonzero : ((b + 256 * w) == 0) ≡ false = ground arith in
    let low : (b + 256 * w) % 256 ≡ b = omega arith in
    let high : (b + 256 * w) / 256 ≡ w = omega arith in rw (nonzero, low, high, significant)

significant_zero : (fuel : ℕ) → significant fuel 0 ≡ []
unfolding significant
significant_zero zero = refl
significant_zero (suc fuel) = refl

significant-value :
    (fuel : ℕ) (bs : Bytes)
    → AllBytes bs
    → EndsNonzero bs
    → length bs ≤ fuel
    → significant fuel (value bs) ≡ bs
unfolding value
significant-value fuel [] a e le = elim e [ ]
significant-value zero (b ∷ bs) a e le = absurd (omega arith)
significant-value (suc fuel) (b ∷ []) a e le =
    significant_step fuel b 0 a.0 (omega arith) ∙ ap (λ t. b ∷ t) (significant_zero fuel)
significant-value (suc fuel) (b ∷ c ∷ bs) a e le =
    significant_step fuel b (value (c ∷ bs)) a.0 (omega (arith, length-le-value (c ∷ bs) e))
    ∙ ap (λ t. b ∷ t) (significant-value fuel (c ∷ bs) a.1 e (omega arith))

pub minimal_bytes_lem :
    (key : Bytes)
    → AllBytes (reverse key)
    → EndsNonzero (reverse key)
    → minimal_bytes (set_bytes key) ≡ key
unfolding minimal_bytes set_bytes
minimal_bytes_lem key a e =
    rw (significant-value (value (reverse key)) (reverse key) a e (length-le-value (reverse key) e))
      (reverse-reverse key)

module _ {PublicKey : Type 0} (marshal : PublicKey → Bytes) where
  -- Every number of the set is that of a member with a stake, whose key does not begin with 0.
  pub record Staffed (p : Provisioners PublicKey) (k : ℕ) : Type 0 where
    pub key : Bytes
    pub member : Member PublicKey
    pub there : lookup key p.members ≡ some member
    pub number : set_bytes key ≡ k
    pub marshals : marshal member.public_key_bls ≡ key
    pub full_width : EndsNonzero (reverse key)
    pub positive : 0 < weight member % 2 ^ 64

  nothing_in_nil : (j : ℕ) → has [] j ≡ true → ⊥
  unfolding has
  nothing_in_nil j h = ground arith

  seat :
      (p : Provisioners PublicKey) (i : ℕ)
      → Consistent p.set p.members
      → i < length p.set
      → ((k : ℕ) → has p.set k ≡ true → Staffed p k)
      → Seat marshal p i
  unfolding get_member
  seat p i c lt staff =
      let (k, at) = get_elem?-some p.set i lt in
      let s = staff k (has-get_elem? marshal p p.set i k at) in
      let ((len, bytes), _) = c.keyed s.key s.member s.there in
      record {
        key = k;
        member = s.member;
        stake = weight s.member % 2 ^ 64;
        at = at;
        found =
            rw (← s.number, minimal_bytes_lem s.key (AllBytes-reverse s.key bytes) s.full_width)
              s.there;
        named = rw (s.marshals, s.number);
        staked = rw s.marshals (stake_of_key p s.key s.member len s.there);
        positive = s.positive;
      }

  -- On provisioners whose set is increasing and has exactly the numbers of members that have a stake
  -- that is not 0 as a uint64 and a key that does not begin with a zero byte, with a hash function that
  -- never fails and a positive total weight, a committee of any size up to the number of active
  -- provisioners is drawn, where these are not more than the set has: both loops end, nothing panics,
  -- and the committee has that many members, in increasing order, all of them provisioners.
  pub create_voting_committee_ends :
      (hash : Bytes → Option Bytes) (p : Provisioners PublicKey)
      (round total_weight step wanted : ℕ)
      → Consistent p.set p.members
      → ((k : ℕ) → has p.set k ≡ true → Staffed p k)
      → ((m : Bytes) → (h : Bytes) × (hash m ≡ some h))
      → 0 < total_weight
      → wanted ≤ (size p round).1
      → (size p round).1 ≤ length p.set
      → (committee : Set) × (create_voting_committee marshal p hash round total_weight step wanted
          ≡ drawn committee)
        × (length committee ≡ wanted)
        × Increasing committee
        × Subset committee p.set
  unfolding create_voting_committee draw_members
  create_voting_committee_ends hash p round total_weight step zero c staff total weighs le np =
      ([], refl, refl, tt, λ j h. absurd (nothing_in_nil j h))
  create_voting_committee_ends hash p round total_weight step (suc w) c staff total weighs le np =
      let n = (size p round).1 in
      let (committee, e, f) =
        draw_members_end marshal p n (omega arith) (λ i lt. seat p i c (omega arith) staff) hash
          total round total_weight step weighs (suc w) (suc w) 0 [] tt (omega arith) (omega arith)
          le c.increasing np in
      (committee, e, f.size, f.increasing, f.inside (λ j h. absurd (nothing_in_nil j h)))
