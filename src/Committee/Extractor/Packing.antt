-- ===== src/Committee/Extractor/Packing.antt =====
-- Votes packed into bits by one node and unpacked: the Pack and Unpack of agreement.go.
use dusk_blockchain.Base.{
  ℕ, ◌≤◌, ◌≡◌, refl, subst, ◌==◌, ap, sym, ◌∙◌, arith, Bool-cases, Option-cases, inl, inr, true,
  false, ltb, if◌then◌else◌, [], Option, none, some, length,
}
use dusk_blockchain.Base.Assoc.{nat_key, lookup, insert, lookup-insert}
use dusk_blockchain.Encoding.Buffer.{Bytes}
use dusk_blockchain.SortedSet.{Set, bits}
use dusk_blockchain.SortedSet.Search.{Increasing}
use dusk_blockchain.SortedSet.Bitset.{Subset, intersect-bits}
use dusk_blockchain.Committee.Provisioners.{Provisioners, members_at, size}
use dusk_blockchain.Committee.Store.{Store, voting_size}
use dusk_blockchain.Committee.Sortition.{
  Draw, drawn, panics, runs_on, ◌>>=◌, create_voting_committee,
}
use dusk_blockchain.Committee.Extractor.{
  Extractor, enter_round, cached_or_new, upsert_committee_cache, voting_committee, pack, unpack,
}

module _ {PublicKey : Type 0} (marshal : PublicKey → Bytes) (hash : Bytes → Option Bytes) where
  -- What holds of an extractor after a call for a round and a step that gave `c`.
  record Ready (s : Store PublicKey) (e : Extractor PublicKey) (round step : ℕ) (c : Set)
      : Type 0 where
    same_store : e.store ≡ s
    not_later : ltb e.round round ≡ false
    cached : lookup step e.committee_cache ≡ some c

  Ready-eq :
      (s : Store PublicKey) (e e' : Extractor PublicKey) (round step : ℕ) (c d : Set)
      → ◌≡◌ {A = Draw (Extractor PublicKey × Set)} (drawn (e, d)) (drawn (e', c))
      → Ready s e round step d
      → Ready s e' round step c
  Ready-eq s e e' round step c d h r =
      let ee : e ≡ e' = cc in
      let cd : d ≡ c = cc in
      subst (λ x. Ready s x round step c) ee (subst (λ x. Ready s e round step x) cd r)

  >>=-eq-drawn :
      {A B : Type 0} (m : Draw A) (f : A → Draw B) (b : B)
      → (m >>= f) ≡ drawn b
      → (a : A) × (m ≡ drawn a) × (f a ≡ drawn b)
  >>=-eq-drawn (drawn a) f b h = (a, refl, h)
  >>=-eq-drawn panics f b h = absurd cc
  >>=-eq-drawn runs_on f b h = absurd cc

  cached_or_new-Ready :
      (e e' : Extractor PublicKey) (round step wanted : ℕ) (c : Set)
      → ltb e.round round ≡ false
      → cached_or_new marshal hash e round step wanted ≡ drawn (e', c)
      → Ready e.store e' round step c
  unfolding cached_or_new
  cached_or_new-Ready e e' round step wanted c le h =
      elim (Option-cases (lookup step e.committee_cache)) [
        | inr (d, there) ↦
            Ready-eq e.store e e' round step c d (rw (there, cached_or_new) at h)
              record { same_store = refl; not_later = le; cached = there }
        | inl away ↦
            let (d, _, eq) =
              >>=-eq-drawn
                (create_voting_committee marshal e.store.provisioners hash round
                  e.store.total_weight step wanted)
                (λ x. drawn (record e { committee_cache = insert step x e.committee_cache }, x))
                (e', c) (rw (away, cached_or_new) at h) in
            Ready-eq e.store (record e { committee_cache = insert step d e.committee_cache }) e'
              round step c d eq
              record {
                same_store = refl;
                not_later = le;
                cached = lookup-insert step step d e.committee_cache ∙ self d;
              }
      ]
    where
      self : (d : Set) → (if step == step then some d else lookup step e.committee_cache) ≡ some d
      self d = let q : (step == step) ≡ true = ground arith in rw q

  enter_round-not_later :
      (e : Extractor PublicKey) (round : ℕ) → ltb (enter_round e round).round round ≡ false
  unfolding enter_round
  enter_round-not_later e round = elim (Bool-cases (ltb e.round round)) [
    | inl later ↦ rw (later, enter_round) (ground arith)
    | inr here ↦ rw (here, enter_round) here
  ]

  enter_round-store : (e : Extractor PublicKey) (round : ℕ) → (enter_round e round).store ≡ e.store
  unfolding enter_round
  enter_round-store e round = elim (Bool-cases (ltb e.round round)) [ inl l ↦ rw l | inr l ↦ rw l ]

  Ready-upsert :
      (e : Extractor PublicKey) (round step wanted : ℕ) (c : Set)
      → Ready e.store e round step c
      → upsert_committee_cache marshal hash e round step wanted ≡ drawn (e, c)
  unfolding upsert_committee_cache enter_round cached_or_new
  Ready-upsert e round step wanted c r = rw r.not_later (rw (r.cached, cached_or_new))

  upsert-Ready :
      (e e' : Extractor PublicKey) (round step wanted : ℕ) (c : Set)
      → upsert_committee_cache marshal hash e round step wanted ≡ drawn (e', c)
      → Ready e.store e' round step c
  unfolding upsert_committee_cache
  upsert-Ready e e' round step wanted c h =
      subst (λ s. Ready s e' round step c) (enter_round-store e round)
        (cached_or_new-Ready (enter_round e round) e' round step wanted c
          (enter_round-not_later e round) h)

size_hit :
    {PublicKey : Type 0} (p : Provisioners PublicKey) (round n : ℕ)
    → lookup round p.size_cache ≡ some n
    → size p round ≡ (p, n)
unfolding size
size_hit p round n there = rw (there, size)

size_miss :
    {PublicKey : Type 0} (p : Provisioners PublicKey) (round : ℕ)
    → lookup round p.size_cache ≡ none
    → size p round
      ≡ (record p { size_cache = insert round (members_at p round) [] }, members_at p round)
unfolding size
size_miss p round away = rw (away, size)

insert_hit : (round n : ℕ) → lookup round (insert round n []) ≡ some n
insert_hit round n =
    let self : (round == round) ≡ true = ground arith in lookup-insert round round n [] ∙ rw self

size_again :
    {PublicKey : Type 0} (p : Provisioners PublicKey) (round : ℕ)
    → size (size p round).0 round ≡ ((size p round).0, (size p round).1)
size_again p round = elim (Option-cases (lookup round p.size_cache)) [
  | inr (n, there) ↦ rw (size_hit p round n there) (size_hit p round n there)
  | inl away ↦
      let n = members_at p round in
      rw (size_miss p round away)
        (size_hit (record p { size_cache = insert round n [] }) round n (insert_hit round n))
]

voting_size_again :
    {PublicKey : Type 0} (s : Store PublicKey) (round : ℕ)
    → voting_size (voting_size s round).0 round ≡ ((voting_size s round).0, (voting_size s round).1)
unfolding voting_size
voting_size_again s round = rw (size_again s.provisioners round)

module _ {PublicKey : Type 0} (marshal : PublicKey → Bytes) (hash : Bytes → Option Bytes) where
  voting_committee_again :
      (e e' : Extractor PublicKey) (round step : ℕ) (c : Set)
      → voting_committee marshal hash e round step ≡ drawn (e', c)
      → voting_committee marshal hash e' round step ≡ drawn (e', c)
  unfolding voting_committee
  voting_committee_again e e' round step c h =
      let s = voting_size e.store round in
      let r = upsert-Ready marshal hash (record e { store = s.0 }) e' round step s.1 c h in
      let q : voting_size e'.store round ≡ (e'.store, s.1) =
        subst (λ t. voting_size t round ≡ (t, s.1)) (sym r.same_store)
          (voting_size_again e.store round) in
      rw q (
        Ready-upsert marshal hash e' round step s.1 c
          record { same_store = refl; not_later = r.not_later; cached = r.cached })

  -- Once a committee of at most 64 members is drawn for a round and a step, votes of its members that
  -- are packed are the votes that are unpacked, and neither call draws another committee.
  pub pack-unpack :
      (e e' : Extractor PublicKey) (round step : ℕ) (c votes : Set)
      → voting_committee marshal hash e round step ≡ drawn (e', c)
      → Increasing c
      → length c ≤ 64
      → Increasing votes
      → Subset votes c
      → (pack marshal hash e votes round step ≡ drawn (e', bits c votes))
        × (unpack marshal hash e' (bits c votes) round step ≡ drawn (e', votes))
  unfolding pack unpack
  pack-unpack e e' round step c votes h ic le iv sub = (
    rw h,
    rw (voting_committee_again e e' round step c h)
        (ap (λ v. drawn (e', v)) (intersect-bits c votes ic iv sub le)),
  )
