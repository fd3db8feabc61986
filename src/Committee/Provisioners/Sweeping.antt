-- ===== src/Committee/Provisioners/Sweeping.antt =====
-- RemoveExpired of provisioners.go over the whole map.
use dusk_blockchain.Base.{
  ℕ, ◌+◌, ◌%◌, ◌^◌, ◌<◌, ◌≡◌, refl, sym, ◌∙◌, arith, false, not, ◌&&◌, ◌==◌, if◌then◌else◌,
  Bool-cases, inl, inr, List, [], ◌∷◌, none, some, length, All,
}
use dusk_blockchain.Base.Assoc.{lookup, lookup-insert, lookup-delete}
use dusk_blockchain.Encoding.Buffer.{Bytes, bytes_key, equal, equal→eq, equal_refl}
use dusk_blockchain.Committee.Provisioners.{
  Stake, Member, Provisioners, remove, write_back, expire_member, expire_entries, remove_expired,
}
use dusk_blockchain.Committee.Provisioners.Weight.{
  sum_by, sum_of, weight_at, Unique, sum_of-insert, sum_of-delete,
}
use dusk_blockchain.Committee.Provisioners.Expiry.{Live, live, expired, expire_member-Expired}
use dusk_blockchain.Committee.Provisioners.Consistent.{
  Consistent, weight, insert-Consistent, delete-Consistent,
}

split_amounts :
    (round : ℕ) (ss : List Stake)
    → sum_by (live round (λ s. s.amount)) ss + sum_by (expired round) ss ≡ sum_by (λ s. s.amount) ss
split_amounts round [] = refl
split_amounts round (s ∷ ss) =
    let one : live round (λ t. t.amount) s + expired round s ≡ s.amount = ground arith in
    omega (arith, split_amounts round ss)

module _ {PublicKey : Type 0} where
  record Written (p : Provisioners PublicKey) (key : Bytes) (before after : Member PublicKey)
      (p' : Provisioners PublicKey) : Type 0 where
    consistent : Consistent p'.set p'.members
    sums : sum_of weight p'.members + weight before ≡ sum_of weight p.members + weight after
    others : (k : Bytes) → equal key k ≡ false → lookup k p'.members ≡ lookup k p.members
    own : (m : Member PublicKey) → lookup key p'.members ≡ some m → m ≡ after

  write_back-Written :
      (p : Provisioners PublicKey) (key : Bytes) (before after : Member PublicKey)
      → Consistent p.set p.members
      → lookup key p.members ≡ some before
      → Written p key before after (write_back p key before after)
  unfolding write_back remove
  write_back-Written p key before after c there =
      elim (Bool-cases (length after.stakes == 0 && not (length before.stakes == 0))) [
        | inl gone ↦
            let light : weight after ≡ 0 = empty_weight after.stakes (ground arith) in
            rw (gone, write_back)
              record {
                consistent = delete-Consistent p.set p.members key c (c.keyed key before there).0;
                sums =
                    let q : weight_at weight (lookup key p.members) ≡ weight before = rw there in
                    omega (arith, light, sum_of-delete weight key p.members c.unique);
                others = λ k off. rw (lookup-delete key k p.members, off);
                own = λ m h.
                    let h' : (if equal key key then none else lookup key p.members) ≡ some m =
                      sym (lookup-delete key key p.members) ∙ h in
                    let r = equal_refl key in absurd (ground arith);
              }
        | inr stays ↦
            rw (stays, write_back)
              record {
                consistent =
                    insert-Consistent p.set p.set p.members key after c (c.keyed key before there).0
                      c.increasing (λ j h. h) (c.keyed key before there).1;
                sums =
                    let q : weight_at weight (lookup key p.members) ≡ weight before = rw there in
                    omega (arith, sum_of-insert weight key after p.members);
                others = λ k off. rw (lookup-insert key k after p.members, off);
                own = λ m h.
                    let h' : (if equal key key then some after else lookup key p.members) ≡ some m =
                      sym (lookup-insert key key after p.members) ∙ h in
                    let r = equal_refl key in let h'' : some after ≡ some m = ground arith in cc;
              }
      ]
    where
      empty_weight : (ss : List Stake) → length ss ≡ 0 → sum_by (λ s. s.amount) ss ≡ 0
      empty_weight [] h = refl
      empty_weight (s ∷ ss) h = absurd (omega arith)

  -- What the loop over the entries `es` does to the provisioners and to the amount removed so far.
  pub record Swept (round : ℕ) (es : List (Bytes × Member PublicKey)) (p : Provisioners PublicKey)
      (total : ℕ) (p' : Provisioners PublicKey) (total' : ℕ) : Type 0 where
    pub consistent : Consistent p'.set p'.members
    pub sums :
        sum_of weight p'.members + sum_of (λ m. sum_by (expired round) m.stakes) es
        ≡ sum_of weight p.members
    pub removed : total' ≡ (total + sum_of (λ m. sum_by (expired round) m.stakes) es) % 2 ^ 64
    pub clean :
        (key : Bytes) (m : Member PublicKey)
        → lookup key p'.members ≡ some m
        → All (Live round) m.stakes

  -- The entries still to come are those of the map, and all others are swept.
  record Ahead (round : ℕ) (es : List (Bytes × Member PublicKey))
      (ms : List (Bytes × Member PublicKey)) : Type 0 where
    unique : Unique es
    there : (k : Bytes) (m : Member PublicKey) → lookup k es ≡ some m → lookup k ms ≡ some m
    swept :
        (k : Bytes) (m : Member PublicKey)
        → lookup k es ≡ none
        → lookup k ms ≡ some m
        → All (Live round) m.stakes

  Ahead-step :
      (round : ℕ) (key : Bytes) (m m' : Member PublicKey) (es : List (Bytes × Member PublicKey))
      (p p' : Provisioners PublicKey)
      → Ahead round ((key, m) ∷ es) p.members
      → Written p key m m' p'
      → All (Live round) m'.stakes
      → Ahead round es p'.members
  unfolding lookup
  Ahead-step round key m m' es p p' a w live' = record {
    unique = a.unique.1;
    there = λ k u h. elim (Bool-cases (equal key k)) [
      | inl here ↦
          let e : lookup k es ≡ none = rw (← equal→eq key k here) a.unique.0 in
          absurd (ground arith)
      | inr off ↦ w.others k off ∙ a.there k u (rw off h)
    ];
    swept = λ k u h at. elim (Bool-cases (equal key k)) [
      | inl here ↦ let e : u ≡ m' = w.own u (rw (equal→eq key k here) at) in rw e live'
      | inr off ↦ a.swept k u (rw off h) (sym (w.others k off) ∙ at)
    ];
  }

  lookup-nil : (key : Bytes) → lookup {V = Member PublicKey} key [] ≡ none
  unfolding lookup
  lookup-nil key = refl

  lookup-head :
      (key : Bytes) (m : Member PublicKey) (es : List (Bytes × Member PublicKey))
      → lookup key ((key, m) ∷ es) ≡ some m
  unfolding lookup
  lookup-head key m es = rw (equal_refl key)

  expire_entries-Swept :
      (round : ℕ) (es : List (Bytes × Member PublicKey)) (p : Provisioners PublicKey) (total : ℕ)
      → total < 2 ^ 64
      → Consistent p.set p.members
      → Ahead round es p.members
      → Swept round es p total
          (expire_entries round es p total).0
          (expire_entries round es p total).1
  unfolding expire_entries
  expire_entries-Swept round [] p total t c a = record {
    consistent = c;
    sums = omega arith;
    removed = omega arith;
    clean = λ k m h. a.swept k m (lookup-nil k) h;
  }
  expire_entries-Swept round ((key, m) ∷ es) p total t c a =
      let ex = expire_member-Expired round m total t in
      let w =
        write_back-Written p key m (expire_member round m total).0 c
          (a.there key m (lookup-head key m es)) in
      let ih =
        expire_entries-Swept round es (write_back p key m (expire_member round m total).0)
          (expire_member round m total).1 (omega (arith, ex.removed)) w.consistent
          (Ahead-step round key m (expire_member round m total).0 es p
            (write_back p key m (expire_member round m total).0) a w ex.none_left) in
      record {
        consistent = ih.consistent;
        sums =
            omega (arith, ih.sums, w.sums, ex.kept (λ s. s.amount), split_amounts round m.stakes);
        removed = omega (arith, ih.removed, ex.removed);
        clean = ih.clean;
      }

  -- No stake that has ended is left, the sum of all stakes has gone down by those that had, and this is
  -- what the call returns, as a uint64.
  pub remove_expired-Swept :
      (round : ℕ) (p : Provisioners PublicKey)
      → Consistent p.set p.members
      → Swept round p.members p 0 (remove_expired p round).0 (remove_expired p round).1
  unfolding remove_expired
  remove_expired-Swept round p c =
      expire_entries-Swept round p.members p 0 (omega arith) c
        record { unique = c.unique; there = λ k m h. h; swept = λ k m h h'. absurd (ground arith) }
