-- ===== src/Agreement/Handler/Tally/Mixed.antt =====
-- pkg/core/consensus/agreement/handler.go: the votes of both steps in the order in which they came, and
-- the map of Aggregate, whose entries are in the order of the first votes.
use dusk_blockchain.Base.{
  ℕ, suc, ◌+◌, ◌<◌, ◌≡◌, ◌≢◌, refl, ap, ◌∙◌, arith, Bool, true, false, ◌==◌, List, [], ◌∷◌, ◌++◌,
  Option, none, some, length, map, All, All-map,
}
use dusk_blockchain.Base.Assoc.{nat_key, lookup, insert}
use dusk_blockchain.Encoding.Buffer.{Bytes}
use dusk_blockchain.SortedSet.{Set}
use dusk_blockchain.SortedSet.Search.{has}
use dusk_blockchain.SortedSet.Update.{insert_correct}
use dusk_blockchain.Crypto.Bls.{Curve}
use dusk_blockchain.Crypto.Bls.Aggregation.{Bilinear}
use dusk_blockchain.Consensus.Keys.{Compresses}
use dusk_blockchain.Reduction.Event.{Reduction}
use dusk_blockchain.Agreement.Handler.{VotesMap, Collected, collect_vote, add_to_map, add_all}
use dusk_blockchain.Agreement.Handler.Tally.{Commutes, Voter, number, Distinct, IsVoter}
use dusk_blockchain.Agreement.Handler.Tally.Counted.{
  vote_of, Counted, alone, joined, collect_first, collect_next, joined-length, joined-Counted,
  alone-Counted,
}

-- A vote at the first step, `false`, or at the second.
abbrev pub Ballot : Type 0
Ballot = Bool × Voter

unfoldable pub at_first : List Ballot → List Voter
at_first [] = []
at_first ((false, v) ∷ bs) = v ∷ at_first bs
at_first ((true, v) ∷ bs) = at_first bs

unfoldable pub at_second : List Ballot → List Voter
at_second [] = []
at_second ((false, v) ∷ bs) = at_second bs
at_second ((true, v) ∷ bs) = v ∷ at_second bs

-- One step: the entry that it has, if any.
module _ (c : Curve) (laws : Bilinear c) (group : Commutes c) (small : Compresses c)
    (round step : ℕ) (hash msg : Bytes) (members : Set) where
  still_new :
      (col : Collected c) (v : Voter) (vs : List Voter)
      → Counted c laws group small round step hash msg members col
      → All (λ w. number v ≢ number w) vs
      → All (λ w. has col.keys (number w) ≡ false) vs
      → All
          (λ w.
            has (joined c laws group small round step hash msg members col v).keys (number w)
            ≡ false)
          vs
  still_new col v [] k d n = tt
  still_new col v (w ∷ vs) k (dw, d) (nw, n) =
      let put = insert_correct col.keys (number v) k.increasing in
      let off : (number v == number w) ≡ false = ground arith in
      (put.members (number w) ∙ rw (off, nw), still_new col v vs k d n)

  apart : (v w : Voter) → number v ≢ number w → has (number v ∷ []) (number w) ≡ false
  unfolding has
  apart v w ne = ground arith

  unfoldable pub CountedAt : Option (Collected c) → Type 0
  CountedAt none = Unit {0}
  CountedAt (some col) = Counted c laws group small round step hash msg members col

  unfoldable pub votes_at : Option (Collected c) → ℕ
  votes_at none = 0
  votes_at (some col) = length col.keys

  unfoldable pub NewAt : Option (Collected c) → List Voter → Type 0
  NewAt none vs = Unit {0}
  NewAt (some col) vs = All (λ w. has col.keys (number w) ≡ false) vs

  pub record Cast (o : Option (Collected c)) (v : Voter) (vs : List Voter) : Type 0 where
    pub entry : Collected c
    pub collects : collect_vote c o (vote_of c round step hash msg v) ≡ some entry
    pub counted : Counted c laws group small round step hash msg members entry
    pub more : length entry.keys ≡ suc (votes_at o)
    pub new : All (λ w. has entry.keys (number w) ≡ false) vs

  pub cast :
      (o : Option (Collected c)) (v : Voter) (vs : List Voter)
      → step ≢ 0
      → CountedAt o
      → IsVoter c members v
      → All (λ w. number v ≢ number w) vs
      → NewAt o (v ∷ vs)
      → Cast o v vs
  unfolding CountedAt votes_at NewAt
  cast none v vs started k is d n = record {
    entry = alone c laws group small round step hash msg members v;
    collects = collect_first c laws group small round step hash msg members v is;
    counted = alone-Counted c laws group small round step hash msg members v is;
    more = refl;
    new = All-map (λ w ne. apart v w ne) vs d;
  }
  cast (some col) v vs started k is d (nv, n) = record {
    entry = joined c laws group small round step hash msg members col v;
    collects = collect_next c laws group small round step hash msg members col v is k.kept started;
    counted = joined-Counted c laws group small round step hash msg members col v is k nv;
    more = joined-length c laws group small round step hash msg members col v k nv;
    new = still_new col v vs k d n;
  }

  -- A step with votes has an entry.
  pub entry_of :
      (o : Option (Collected c))
      → CountedAt o
      → 0 < votes_at o
      → (col : Collected c) × (o ≡ some col)
        × Counted c laws group small round step hash msg members col
        × (votes_at o ≡ length col.keys)
  unfolding CountedAt votes_at
  entry_of none k n = absurd (omega arith)
  entry_of (some col) k n = (col, refl, k, refl)

-- The map over two steps, with the entry of the second in front when its first vote came earlier.
module _ (c : Curve) (s0 s1 : ℕ) where
  unfoldable pub entry_at : ℕ → Option (Collected c) → VotesMap c
  entry_at s none = []
  entry_at s (some col) = (s, col) ∷ []

  unfoldable pub laid : Bool → Option (Collected c) → Option (Collected c) → VotesMap c
  laid false oa ob = entry_at s0 oa ++ entry_at s1 ob
  laid true oa ob = entry_at s1 ob ++ entry_at s0 oa

  module _ (differ : (s0 == s1) ≡ false) where
    pub lookup-first : (sw : Bool) (oa ob : Option (Collected c)) → lookup s0 (laid sw oa ob) ≡ oa
    unfolding laid entry_at lookup
    lookup-first sw oa ob =
        let same : (s0 == s0) ≡ true = ground arith in
        let other : (s1 == s0) ≡ false = ground arith in split sw oa ob same other
      where
        split :
            (sw : Bool) (oa ob : Option (Collected c))
            → (s0 == s0) ≡ true
            → (s1 == s0) ≡ false
            → lookup s0 (laid sw oa ob) ≡ oa
        split false none none same other = refl
        split false none (some b) same other = rw other
        split false (some a) ob same other = rw same
        split true none none same other = refl
        split true none (some b) same other = rw other
        split true (some a) none same other = rw same
        split true (some a) (some b) same other = rw (other, same)

    pub lookup-second : (sw : Bool) (oa ob : Option (Collected c)) → lookup s1 (laid sw oa ob) ≡ ob
    unfolding laid entry_at lookup
    lookup-second sw oa ob = let same : (s1 == s1) ≡ true = ground arith in split sw oa ob same
      where
        split :
            (sw : Bool) (oa ob : Option (Collected c))
            → (s1 == s1) ≡ true
            → lookup s1 (laid sw oa ob) ≡ ob
        split false none none same = refl
        split false none (some b) same = rw same
        split false (some a) none same = rw differ
        split false (some a) (some b) same = rw (differ, same)
        split true none none same = refl
        split true (some a) none same = rw differ
        split true oa (some b) same = rw same

    pub insert-first :
        (sw : Bool) (oa ob : Option (Collected c)) (a : Collected c)
        → (sw' : Bool) × (insert s0 a (laid sw oa ob) ≡ laid sw' (some a) ob)
    unfolding laid entry_at insert
    insert-first sw oa ob a =
        let same : (s0 == s0) ≡ true = ground arith in
        let other : (s1 == s0) ≡ false = ground arith in split sw oa ob same other
      where
        split :
            (sw : Bool) (oa ob : Option (Collected c))
            → (s0 == s0) ≡ true
            → (s1 == s0) ≡ false
            → (sw' : Bool) × (insert s0 a (laid sw oa ob) ≡ laid sw' (some a) ob)
        split false none none same other = (false, refl)
        split false none (some b) same other = (true, rw other)
        split false (some x) ob same other = (false, rw same)
        split true none none same other = (true, refl)
        split true none (some b) same other = (true, rw other)
        split true (some x) none same other = (true, rw same)
        split true (some x) (some b) same other = (true, rw (other, same))

    pub insert-second :
        (sw : Bool) (oa ob : Option (Collected c)) (b : Collected c)
        → (sw' : Bool) × (insert s1 b (laid sw oa ob) ≡ laid sw' oa (some b))
    unfolding laid entry_at insert
    insert-second sw oa ob b = let same : (s1 == s1) ≡ true = ground arith in split sw oa ob same
      where
        split :
            (sw : Bool) (oa ob : Option (Collected c))
            → (s1 == s1) ≡ true
            → (sw' : Bool) × (insert s1 b (laid sw oa ob) ≡ laid sw' oa (some b))
        split false none none same = (false, refl)
        split false none (some x) same = (false, rw same)
        split false (some a) none same = (false, rw differ)
        split false (some a) (some x) same = (false, rw (differ, same))
        split true none none same = (true, refl)
        split true (some a) none same = (false, rw differ)
        split true oa (some x) same = (true, rw same)

add_to_map_collected :
    (c : Curve) (m : VotesMap c) (ev : Reduction) (entry : Collected c)
    → collect_vote c (lookup ev.header.step m) ev ≡ some entry
    → add_to_map c m ev ≡ some (insert ev.header.step entry m)
unfolding add_to_map
add_to_map_collected c m ev entry e = rw (add_to_map, e)

module _ (c : Curve) (round s0 s1 : ℕ) (hash first second : Bytes) where
  unfoldable pub ballot_vote : Ballot → Reduction
  ballot_vote (false, v) = vote_of c round s0 hash first v
  ballot_vote (true, v) = vote_of c round s1 hash second v

module _ (c : Curve) (laws : Bilinear c) (group : Commutes c) (small : Compresses c)
    (round s0 s1 : ℕ) (hash first second : Bytes) (one two : Set) where
  -- What the votes of some ballots make of the entries of the two steps.
  pub record Mixed (sw : Bool) (oa ob : Option (Collected c)) (bs : List Ballot) : Type 0 where
    pub swapped : Bool
    pub left : Option (Collected c)
    pub right : Option (Collected c)
    pub all_added :
        add_all c (laid c s0 s1 sw oa ob) (map (ballot_vote c round s0 s1 hash first second) bs)
        ≡ some (laid c s0 s1 swapped left right)
    pub left_counted : CountedAt c laws group small round s0 hash first one left
    pub right_counted : CountedAt c laws group small round s1 hash second two right
    pub left_votes :
        votes_at c laws group small round s0 hash first one left
        ≡ length (at_first bs) + votes_at c laws group small round s0 hash first one oa
    pub right_votes :
        votes_at c laws group small round s1 hash second two right
        ≡ length (at_second bs) + votes_at c laws group small round s1 hash second two ob

  module _ (started : s0 ≢ 0) (going : s1 ≢ 0) (differ : (s0 == s1) ≡ false) where
    pub mixed :
        (bs : List Ballot) (sw : Bool) (oa ob : Option (Collected c))
        → CountedAt c laws group small round s0 hash first one oa
        → CountedAt c laws group small round s1 hash second two ob
        → All (IsVoter c one) (at_first bs)
        → All (IsVoter c two) (at_second bs)
        → Distinct (at_first bs)
        → Distinct (at_second bs)
        → NewAt c laws group small round s0 hash first one oa (at_first bs)
        → NewAt c laws group small round s1 hash second two ob (at_second bs)
        → Mixed sw oa ob bs
    unfolding add_all at_first at_second ballot_vote vote_of CountedAt votes_at NewAt
    mixed [] sw oa ob ka kb ia ib da db na nb = record {
      swapped = sw;
      left = oa;
      right = ob;
      all_added = refl;
      left_counted = ka;
      right_counted = kb;
      left_votes = omega arith;
      right_votes = omega arith;
    }
    mixed ((false, v) ∷ bs) sw oa ob ka kb (i, ia) ib (dv, da) db na nb =
        let k =
          cast c laws group small round s0 hash first one oa v (at_first bs) started ka i dv na in
        let (sw', put) = insert-first c s0 s1 differ sw oa ob k.entry in
        let at = lookup-first c s0 s1 differ sw oa ob in
        let stored =
          add_to_map_collected c (laid c s0 s1 sw oa ob) (vote_of c round s0 hash first v) k.entry
            (ap (λ o. collect_vote c o (vote_of c round s0 hash first v)) at ∙ k.collects) in
        let rest = mixed bs sw' (some k.entry) ob k.counted kb ia ib da db k.new nb in
        record {
          swapped = rest.swapped;
          left = rest.left;
          right = rest.right;
          all_added = rw (add_all, stored, put) rest.all_added;
          left_counted = rest.left_counted;
          right_counted = rest.right_counted;
          left_votes = omega (arith, rest.left_votes, k.more);
          right_votes = rest.right_votes;
        }
    mixed ((true, v) ∷ bs) sw oa ob ka kb ia (i, ib) da (dv, db) na nb =
        let k =
          cast c laws group small round s1 hash second two ob v (at_second bs) going kb i dv nb in
        let (sw', put) = insert-second c s0 s1 differ sw oa ob k.entry in
        let at = lookup-second c s0 s1 differ sw oa ob in
        let stored =
          add_to_map_collected c (laid c s0 s1 sw oa ob) (vote_of c round s1 hash second v) k.entry
            (ap (λ o. collect_vote c o (vote_of c round s1 hash second v)) at ∙ k.collects) in
        let rest = mixed bs sw' oa (some k.entry) ka k.counted ia ib da db na k.new in
        record {
          swapped = rest.swapped;
          left = rest.left;
          right = rest.right;
          all_added = rw (add_all, stored, put) rest.all_added;
          left_counted = rest.left_counted;
          right_counted = rest.right_counted;
          left_votes = rest.left_votes;
          right_votes = omega (arith, rest.right_votes, k.more);
        }
