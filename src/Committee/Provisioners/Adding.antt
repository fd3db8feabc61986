-- ===== src/Committee/Provisioners/Adding.antt =====
-- AddMember of provisioners.go: what it does to the members, to their stakes and to the sum of them.
use dusk_blockchain.Base.{
  ℕ, ◌+◌, ◌%◌, ◌^◌, ◌≡◌, ◌≢◌, refl, ap, ◌∙◌, arith, true, false, not, ◌||◌, ◌==◌, Bool-cases,
  Option-cases, inl, inr, List, [], ◌∷◌, ◌++◌, Option, none, some, length,
}
use dusk_blockchain.Base.Assoc.{lookup, insert, lookup-insert}
use dusk_blockchain.Encoding.Buffer.{Bytes, AllBytes, bytes_key, equal, equal_refl}
use dusk_blockchain.SortedSet.{Set, set_bytes}
use dusk_blockchain.SortedSet
use dusk_blockchain.SortedSet.Search.{Increasing, has}
use dusk_blockchain.SortedSet.Update.{insert_correct}
use dusk_blockchain.Committee.Provisioners.{
  Stake, Member, Provisioners, Added, added, refused, nil_member, add_stake, add_to_old, add_new,
  add_member, get_stake, total_stake,
}
use dusk_blockchain.Committee.Provisioners.Weight.{
  sum_by, sum_of, weight_at, sum_of-insert, total_stake_lem,
}
use dusk_blockchain.Committee.Provisioners.Consistent.{IsKey, Consistent, weight, insert-Consistent}

abbrev pub gained : Added → ℕ → ℕ
gained added n = n
gained refused n = 0
gained nil_member n = 0

sum_by-append :
    (w : Stake → ℕ) (ss : List Stake) (s : Stake) → sum_by w (ss ++ (s ∷ [])) ≡ sum_by w ss + w s
sum_by-append w [] s = omega arith
sum_by-append w (t ∷ ss) s = omega (arith, sum_by-append w ss s)

module _ {PublicKey : Type 0} where
  -- The members after a call that put the stake `s` on `key`.
  abbrev Put :
      List (Bytes × Member PublicKey) → Bytes → Stake → List (Bytes × Member PublicKey) → Type 0
  Put ms key s ms' =
      (m : Member PublicKey) × (ms' ≡ insert key m ms)
      × (weight m ≡ weight_at weight (lookup key ms) + s.amount)

  pub record AddedTo (p : Provisioners PublicKey) (key : Bytes) (s : Stake)
      (p' : Provisioners PublicKey) (result : Added) : Type 0 where
    pub consistent : Consistent p'.set p'.members
    pub sums : sum_of weight p'.members ≡ sum_of weight p.members + gained result s.amount
    pub puts : (result ≡ added) → Put p.members key s p'.members

  -- The set may have grown by the key even when the call fails.
  unchanged :
      (p : Provisioners PublicKey) (key : Bytes) (s : Stake) (set' : Set) (result : Added)
      → Consistent p.set p.members
      → Increasing set'
      → ((j : ℕ) → has p.set j ≡ true → has set' j ≡ true)
      → gained result s.amount ≡ 0
      → result ≢ added
      → AddedTo p key s (record p { set = set' }) result
  unchanged p key s set' result c inc more g r = record {
    consistent = record {
      unique = c.unique;
      increasing = inc;
      keyed = λ k m h. ((c.keyed k m h).0, more (set_bytes k) (c.keyed k m h).1);
    };
    sums = omega (arith, g);
    puts = λ e. absurd (r e);
  }

  put :
      (p : Provisioners PublicKey) (key : Bytes) (s : Stake) (set' : Set) (m : Member PublicKey)
      → Consistent p.set p.members
      → IsKey key
      → Increasing set'
      → ((j : ℕ) → has p.set j ≡ true → has set' j ≡ true)
      → has set' (set_bytes key) ≡ true
      → weight m ≡ weight_at weight (lookup key p.members) + s.amount
      → AddedTo p key s (record p { set = set'; members = insert key m p.members }) added
  put p key s set' m c k inc more at w = record {
    consistent = insert-Consistent p.set set' p.members key m c k inc more at;
    sums = omega (arith, sum_of-insert weight key m p.members);
    puts = λ _. (m, refl, w);
  }

  add_to_old-AddedTo :
      (p : Provisioners PublicKey) (key : Bytes) (s : Stake) (set' : Set)
      → Consistent p.set p.members
      → IsKey key
      → Increasing set'
      → ((j : ℕ) → has p.set j ≡ true → has set' j ≡ true)
      → has set' (set_bytes key) ≡ true
      → AddedTo p key s
          (add_to_old (record p { set = set' }) key s).0
          (add_to_old (record p { set = set' }) key s).1
  unfolding add_to_old add_stake
  add_to_old-AddedTo p key s set' c k inc more at = elim (Option-cases (lookup key p.members)) [
    | inl none_there ↦
        rw (none_there, add_to_old) (unchanged p key s set' nil_member c inc more refl (λ e. cc))
    | inr (m, there) ↦
        rw (there, add_to_old)
          (put p key s set' (add_stake m s) c k inc more at
            (rw there (sum_by-append (λ t. t.amount) m.stakes s)))
  ]

  absent :
      (p : Provisioners PublicKey) (key : Bytes)
      → Consistent p.set p.members
      → has p.set (set_bytes key) ≡ false
      → lookup key p.members ≡ none
  absent p key c h = elim (Option-cases (lookup key p.members)) [
    | inl away ↦ away
    | inr (m, there) ↦ let q = (c.keyed key m there).1 in absurd (ground arith)
  ]

  add_new-AddedTo :
      (unmarshal : Bytes → Option PublicKey) (p : Provisioners PublicKey) (key_ed key : Bytes)
      (s : Stake) (set' : Set)
      → Consistent p.set p.members
      → IsKey key
      → Increasing set'
      → ((j : ℕ) → has p.set j ≡ true → has set' j ≡ true)
      → has set' (set_bytes key) ≡ true
      → lookup key p.members ≡ none
      → AddedTo p key s
          (add_new unmarshal (record p { set = set' }) key_ed key s).0
          (add_new unmarshal (record p { set = set' }) key_ed key s).1
  unfolding add_new add_stake
  add_new-AddedTo unmarshal p key_ed key s set' c k inc more at away =
      elim (Option-cases (unmarshal key)) [
        | inl bad ↦ rw (bad, add_new) (unchanged p key s set' refused c inc more refl (λ e. cc))
        | inr (pk, good) ↦
            rw (good, add_new)
              (put p key s set'
                record { public_key_ed = key_ed; public_key_bls = pk; stakes = s ∷ [] } c k inc more
                at (rw away (omega arith)))
      ]

  pub add_member-AddedTo :
      (unmarshal : Bytes → Option PublicKey) (p : Provisioners PublicKey) (key_ed key : Bytes)
      (s : Stake)
      → Consistent p.set p.members
      → AllBytes key
      → AddedTo p key s
          (add_member unmarshal p key_ed key s).0
          (add_member unmarshal p key_ed key s).1
  unfolding add_member
  add_member-AddedTo unmarshal p key_ed key s c b =
      elim (Bool-cases (not (length key_ed == 32) || not (length key == 129))) [
        | inl short ↦
            rw (short, add_member)
              (unchanged p key s p.set refused c c.increasing (λ j h. h) refl (λ e. cc))
        | inr long ↦
            let ins = insert_correct p.set (set_bytes key) c.increasing in
            let more : (j : ℕ)
                → has p.set j ≡ true
                → has (SortedSet.insert p.set (set_bytes key)).0 j ≡ true =
              λ j h. ins.members j ∙ ground arith in
            let at : has (SortedSet.insert p.set (set_bytes key)).0 (set_bytes key) ≡ true =
              ins.members (set_bytes key) ∙ ground arith in
            let k : IsKey key = (ground arith, b) in
            elim (Bool-cases (SortedSet.insert p.set (set_bytes key)).1) [
              | inl new ↦
                  rw (long, new, add_member)
                    (add_new-AddedTo unmarshal p key_ed key s
                      (SortedSet.insert p.set (set_bytes key)).0 c k ins.increasing more at
                      (absent p key c (ground (arith, ins.answer))))
              | inr old ↦
                  rw (long, old, add_member)
                    (add_to_old-AddedTo p key s (SortedSet.insert p.set (set_bytes key)).0 c k
                      ins.increasing more at)
            ]
      ]

abbrev pub or_zero : Option ℕ → ℕ
or_zero none = 0
or_zero (some n) = n

module _ {PublicKey : Type 0} where
  pub stake_of_key :
      (p : Provisioners PublicKey) (key : Bytes) (m : Member PublicKey)
      → length key ≡ 129
      → lookup key p.members ≡ some m
      → get_stake p key ≡ some (weight m % 2 ^ 64)
  unfolding get_stake
  stake_of_key p key m len there =
      let q : (length key == 129) ≡ true = ground arith in
      let e : total_stake m.stakes 0 ≡ weight m % 2 ^ 64 =
        omega (arith, total_stake_lem m.stakes 0) in
      rw (q, there, e)

  stake_so_far :
      (p : Provisioners PublicKey) (key : Bytes)
      → length key ≡ 129
      → or_zero (get_stake p key) ≡ weight_at weight (lookup key p.members) % 2 ^ 64
  unfolding get_stake
  stake_so_far p key len = elim (Option-cases (lookup key p.members)) [
    | inl away ↦ let q : (length key == 129) ≡ true = ground arith in rw (q, away)
    | inr (m, there) ↦ rw (stake_of_key p key m len there, there)
  ]

  same_stake :
      (p p' : Provisioners PublicKey) (j : Bytes)
      → lookup j p'.members ≡ lookup j p.members
      → get_stake p' j ≡ get_stake p j
  unfolding get_stake
  same_stake p p' j h = rw h

  -- Once AddMember returns with no error, the stake of its key is what it was, or 0, and the amount,
  -- as a uint64; no other key has another stake.
  pub add_member_stake :
      (unmarshal : Bytes → Option PublicKey) (p : Provisioners PublicKey) (key_ed key : Bytes)
      (s : Stake)
      → Consistent p.set p.members
      → AllBytes key
      → (add_member unmarshal p key_ed key s).1 ≡ added
      → (get_stake (add_member unmarshal p key_ed key s).0 key
          ≡ some ((or_zero (get_stake p key) + s.amount) % 2 ^ 64))
        × ((j : Bytes)
            → equal key j ≡ false
            → get_stake (add_member unmarshal p key_ed key s).0 j ≡ get_stake p j)
  add_member_stake unmarshal p key_ed key s c b ok =
      let a = add_member-AddedTo unmarshal p key_ed key s c b in
      let (m, e, w) = a.puts ok in
      let p' = (add_member unmarshal p key_ed key s).0 in
      let there : lookup key p'.members ≡ some m =
        rw (e, lookup-insert key key m p.members, equal_refl key) in
      let len : length key ≡ 129 = (a.consistent.keyed key m there).0.0 in
      (
        stake_of_key p' key m len there ∙ ap some (omega (arith, stake_so_far p key len, w)),
        λ j off. same_stake p p' j (rw (e, lookup-insert key j m p.members, off)),
      )
