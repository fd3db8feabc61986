-- ===== src/Committee/Sortition/Drawing.antt =====
-- That the loops of CreateVotingCommittee in sortition.go end, and what committee they give.
use dusk_blockchain.Base.{
  ℕ, zero, suc, ◌+◌, ◌-◌, ◌%◌, ◌^◌, ◌≤◌, ◌<◌, ◌≡◌, ◌≢◌, sym, ap, ◌∙◌, arith, true, false, ◌==◌, ltb,
  leb, if◌then◌else◌, Bool-cases, inl, inr, [], ◌∷◌, ◌++◌, Option, some, length, get_elem?,
}
use dusk_blockchain.Encoding.Buffer.{Bytes}
use dusk_blockchain.Encoding.Integers.{little_endian, put_uint}
use dusk_blockchain.SortedSet.{Set, set_bytes}
use dusk_blockchain.SortedSet
use dusk_blockchain.SortedSet.Search.{Increasing, has}
use dusk_blockchain.SortedSet.Update.{insert_correct}
use dusk_blockchain.SortedSet.Bitset.{Subset}
use dusk_blockchain.Committee.Provisioners.{Member, Provisioners, get_stake, get_member}
use dusk_blockchain.Committee.Sortition.{
  Draw, drawn, minimal_bytes, wrap, member_at, extract_committee_member, insert_next, insert_drawn,
  draw_member, draw_members, create_sortition_hash, generate_sortition_score,
}
use dusk_blockchain.Committee.Sortition.Seats.{Lacking, lacking}

module _ {PublicKey : Type 0} (marshal : PublicKey → Bytes) (p : Provisioners PublicKey) where
  -- What stands at an index of the set: a member under that key, with a stake.
  pub record Seat (i : ℕ) : Type 0 where
    pub key : ℕ
    pub member : Member PublicKey
    pub stake : ℕ
    pub at : get_elem? p.set i ≡ some key
    pub found : get_member p (minimal_bytes key) ≡ some member
    pub named : set_bytes (marshal member.public_key_bls) ≡ key
    pub staked : get_stake p (marshal member.public_key_bls) ≡ some stake
    pub positive : 0 < stake

  member_at-Seat : (i : ℕ) (s : Seat i) → member_at marshal p i ≡ drawn s.member
  unfolding member_at
  member_at-Seat i s = rw (s.at, s.found)

  record Grown (c c' : Set) : Type 0 where
    increasing : Increasing c'
    one_more : length c' ≡ suc (length c)
    inside : Subset c p.set → Subset c' p.set

  pub has-get_elem? : (v : Set) (i k : ℕ) → get_elem? v i ≡ some k → has v k ≡ true
  unfolding has
  has-get_elem? [] i k h = absurd (ground arith)
  has-get_elem? (x ∷ v) zero k h = ground arith
  has-get_elem? (x ∷ v) (suc i) k h = ground (arith, has-get_elem? v i k h)

  insert-Grown :
      (c : Set) (i k : ℕ)
      → Increasing c
      → get_elem? p.set i ≡ some k
      → (SortedSet.insert c k).1 ≡ true
      → Grown c (SortedSet.insert c k).0
  insert-Grown c i k inc at ok =
      let ins = insert_correct c k inc in
      record {
        increasing = ins.increasing;
        one_more = ground (arith, ins.count);
        inside = λ sub j h. elim (Bool-cases (k == j)) [
          | inl here ↦ let e : k ≡ j = ground arith in rw (← e) (has-get_elem? p.set i k at)
          | inr off ↦ sub j (ground (arith, ins.members j))
        ];
      }

  module _ (n : ℕ) (pos : 0 < n) (seats : (i : ℕ) → i < n → Seat i) where
    wrap-lt : (i : ℕ) → wrap n i < n
    wrap-lt i = ground arith

    record Chosen (at : ℕ × PublicKey) : Type 0 where
      below : at.0 < n
      keyed : get_elem? p.set at.0 ≡ some (set_bytes (marshal at.1))

    extract_step :
        (fuel i score : ℕ) (s : Seat (wrap n i))
        → extract_committee_member marshal p n (suc fuel) i score ≡ elim (leb score s.stake) [
          | true ↦ drawn (wrap n i, s.member.public_key_bls)
          | false ↦ extract_committee_member marshal p n fuel (suc (wrap n i)) (score - s.stake)
        ]
    unfolding extract_committee_member
    extract_step fuel i score s = rw (member_at-Seat (wrap n i) s, s.staked)

    extract_ends :
        (fuel i score : ℕ)
        → score < fuel
        → (at : ℕ × PublicKey) × (extract_committee_member marshal p n fuel i score ≡ drawn at)
          × Chosen at
    extract_ends zero i score lt = absurd (omega arith)
    extract_ends (suc fuel) i score lt =
        let s = seats (wrap n i) (wrap-lt i) in
        elim (Bool-cases (leb score s.stake)) [
          | inl done ↦ (
            (wrap n i, s.member.public_key_bls),
            extract_step fuel i score s ∙ rw done,
            record { below = wrap-lt i; keyed = rw s.named s.at },
          )
          | inr more ↦
              let (at, e, ch) =
                extract_ends fuel (suc (wrap n i)) (score - s.stake) (ground (arith, s.positive)) in
              (at, extract_step fuel i score s ∙ rw (more, e), ch)
        ]

    -- How far it is from an index to another, going round.
    abbrev steps_to : ℕ → ℕ → ℕ
    steps_to i j = if leb i j then j - i else n - i + j

    insert_step :
        (fuel i : ℕ) (c : Set) (s : Seat (wrap n (suc i)))
        → insert_next marshal p n (suc fuel) i c ≡ elim (SortedSet.insert c s.key).1 [
          | true ↦ drawn (SortedSet.insert c s.key).0
          | false ↦ insert_next marshal p n fuel (wrap n (suc i)) c
        ]
    unfolding insert_next
    insert_step fuel i c s = rw (member_at-Seat (wrap n (suc i)) s) (
        ap
          (λ k. elim (SortedSet.insert c k).1 as (λ x. Draw Set) [
            | true ↦ drawn (SortedSet.insert c k).0
            | false ↦ insert_next marshal p n fuel (wrap n (suc i)) c
          ])
          s.named)

    insert_ends :
        (fuel i : ℕ) (c : Set)
        → Increasing c
        → (l : Lacking n p.set c) → steps_to (wrap n (suc i)) l.index < fuel
        → (c' : Set) × (insert_next marshal p n fuel i c ≡ drawn c') × Grown c c'
    insert_ends zero i c inc l lt = absurd (omega arith)
    insert_ends (suc fuel) i c inc l lt =
        let here = wrap n (suc i) in
        let s = seats here (wrap-lt (suc i)) in
        elim (Bool-cases (SortedSet.insert c s.key).1) [
          | inl new ↦ (
            (SortedSet.insert c s.key).0,
            insert_step fuel i c s ∙ rw new,
            insert-Grown c here s.key inc s.at new,
          )
          | inr old ↦
              let present : has c s.key ≡ true =
                ground (arith, (insert_correct c s.key inc).answer) in
              let apart : here ≢ l.index = λ e.
                let q : some s.key ≡ some l.key = sym s.at ∙ ap (λ k. get_elem? p.set k) e ∙ l.at in
                let r : s.key ≡ l.key = cc in absurd (ground (arith, ap (λ k. has c k) r)) in
              let (c', eq, g) =
                insert_ends fuel here c inc l
                  (closer here l.index fuel (wrap-lt (suc i)) l.below apart lt) in
              (c', insert_step fuel i c s ∙ rw (old, eq), g)
        ]
      where
        closer :
            (here j fuel : ℕ)
            → here < n
            → j < n
            → here ≢ j
            → steps_to here j < suc fuel
            → steps_to (wrap n (suc here)) j < fuel
        closer here j fuel h k ne lt = ground arith

    insert_drawn_ends :
        (c : Set) (at : ℕ × PublicKey)
        → Increasing c
        → length c < n
        → Increasing p.set
        → n ≤ length p.set
        → Chosen at
        → (c' : Set) × (insert_drawn marshal p n c at.0 at.1 ≡ drawn c') × Grown c c'
    unfolding insert_drawn
    insert_drawn_ends c at inc lt pinc le ch =
        let k = set_bytes (marshal at.1) in
        elim (Bool-cases (SortedSet.insert c k).1) [
          | inl new ↦ (
            (SortedSet.insert c k).0,
            rw (new, insert_drawn),
            insert-Grown c at.0 k inc ch.keyed new,
          )
          | inr old ↦
              let l = lacking n p.set c pinc inc le lt in
              let (c', e, g) =
                insert_ends (suc n) at.0 c inc l
                  (near (wrap n (suc at.0)) l.index (wrap-lt (suc at.0)) l.below) in
              (c', rw (old, insert_drawn) e, g)
        ]
      where
        near : (i j : ℕ) → i < n → j < n → steps_to i j < suc n
        near i j h k = ground arith

    module _ (hash : Bytes → Option Bytes) (total : (m : Bytes) → (h : Bytes) × (hash m ≡ some h))
        (round total_weight step : ℕ) (weighs : 0 < total_weight) where
      sortition_message : ℕ → Bytes
      sortition_message i =
          put_uint little_endian 8 round ++ (put_uint little_endian 4 (i % 2 ^ 32) ++ (step ∷ []))

      draw_member_ends :
          (i : ℕ) (c : Set)
          → Increasing c
          → length c < n
          → Increasing p.set
          → n ≤ length p.set
          → (c' : Set) × (draw_member marshal p n hash round total_weight step i c ≡ drawn c')
            × Grown c c'
      unfolding draw_member sortition_message generate_sortition_score create_sortition_hash
      draw_member_ends i c inc lt pinc le =
          let (h, e) = total (sortition_message i) in
          let weight_ok : (total_weight == 0) ≡ false = ground arith in
          let score = set_bytes h % total_weight in
          let (at, drawn_at, ch) = extract_ends (suc score) 0 score (omega arith) in
          let (c', inserted, g) = insert_drawn_ends c at inc lt pinc le ch in
          (c', rw e (rw weight_ok (rw drawn_at inserted)), g)

      -- The loop of CreateVotingCommittee from a committee that is a set of provisioners.
      pub record Filled (c c' : Set) (wanted : ℕ) : Type 0 where
        pub increasing : Increasing c'
        pub size : length c' ≡ wanted
        pub inside : Subset c p.set → Subset c' p.set

      pub draw_members_end :
          (fuel wanted i : ℕ) (c : Set)
          → Increasing c
          → length c ≤ wanted
          → wanted ≤ length c + fuel
          → wanted ≤ n
          → Increasing p.set
          → n ≤ length p.set
          → (c' : Set) × (draw_members marshal p n hash round total_weight step fuel wanted i c
              ≡ drawn c')
            × Filled c c' wanted
      unfolding draw_members
      draw_members_end zero wanted i c inc le enough wn pinc np =
          let full : ltb (length c) wanted ≡ false = ground arith in
          (c, rw full, record { increasing = inc; size = omega arith; inside = λ sub. sub })
      draw_members_end (suc fuel) wanted i c inc le enough wn pinc np =
          elim (Bool-cases (ltb (length c) wanted)) [
            | inr full ↦ (
              c,
              rw (full, draw_members),
              record { increasing = inc; size = ground arith; inside = λ sub. sub },
            )
            | inl room ↦
                let (d, one, g) = draw_member_ends i c inc (ground arith) pinc np in
                let (c', rest, f) =
                  draw_members_end fuel wanted (suc i) d g.increasing (ground (arith, g.one_more))
                    (omega (arith, g.one_more)) wn pinc np in
                (
                  c',
                  rw (room, draw_members) (rw one rest),
                  record {
                    increasing = f.increasing;
                    size = f.size;
                    inside = λ sub. f.inside (g.inside sub);
                  },
                )
          ]
