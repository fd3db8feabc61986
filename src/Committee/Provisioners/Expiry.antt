-- ===== src/Committee/Provisioners/Expiry.antt =====
-- What RemoveExpired of provisioners.go leaves and what it returns.
use dusk_blockchain.Base.{
  ℕ, zero, suc, ◌+◌, ◌-◌, ◌%◌, ◌^◌, ◌≤◌, ◌<◌, ◌≡◌, refl, arith, false, ltb, if◌then◌else◌,
  Bool-cases, inl, inr, List, [], ◌∷◌, none, some, length, get_elem?, set, take, All, length-take,
  length-set, Option-cases,
}
use dusk_blockchain.Committee.Provisioners.{
  Stake, Member, remove_stake, expire_loop, passes, expire_fuel, expire_member,
}
use dusk_blockchain.Committee.Provisioners.Weight.{sum_by}

last-sum :
    (w : Stake → ℕ) (ss : List Stake) (n : ℕ) (last : Stake)
    → length ss ≡ suc n
    → get_elem? ss n ≡ some last
    → sum_by w (take n ss) + w last ≡ sum_by w ss
last-sum w [] n last len h = absurd (omega arith)
last-sum w (s ∷ []) zero last len h = let e : w s ≡ w last = cc in omega arith
last-sum w (s ∷ t ∷ ss) zero last len h = absurd (omega arith)
last-sum w (s ∷ ss) (suc n) last len h = omega (arith, last-sum w ss n last (omega arith) h)

swapped-sum :
    (w : Stake → ℕ) (ss : List Stake) (n i : ℕ) (s last : Stake)
    → length ss ≡ suc n
    → get_elem? ss i ≡ some s
    → get_elem? ss n ≡ some last
    → sum_by w (take n (set ss i last)) + w s ≡ sum_by w ss
swapped-sum w [] n i s last len h e = absurd (omega arith)
swapped-sum w (x ∷ []) zero zero s last len h e = let q : w x ≡ w s = cc in omega arith
swapped-sum w (x ∷ []) zero (suc i) s last len h e = absurd (ground arith)
swapped-sum w (x ∷ y ∷ ss) zero i s last len h e = absurd (omega arith)
swapped-sum w (x ∷ ss) (suc n) zero s last len h e =
    let q : w x ≡ w s = cc in omega (arith, last-sum w ss n last (omega arith) e)
swapped-sum w (x ∷ ss) (suc n) (suc i) s last len h e =
    omega (arith, swapped-sum w ss n i s last (omega arith) h e)

pub get_elem?-some :
    {A : Type 0} (xs : List A) (i : ℕ) → i < length xs → (a : A) × (get_elem? xs i ≡ some a)
get_elem?-some [] i h = elim h [ ]
get_elem?-some (x ∷ xs) zero h = (x, refl)
get_elem?-some (x ∷ xs) (suc i) h = get_elem?-some xs i (omega arith)

get_elem?-lt : {A : Type 0} (xs : List A) (i : ℕ) (a : A) → get_elem? xs i ≡ some a → i < length xs
get_elem?-lt [] i a h = absurd (ground arith)
get_elem?-lt (x ∷ xs) zero a h = omega arith
get_elem?-lt (x ∷ xs) (suc i) a h = omega (arith, get_elem?-lt xs i a h)

-- A removal within the stakes takes one of them out of every sum and leaves all else of the member.
record Taken {PublicKey : Type 0} (m : Member PublicKey) (i : ℕ) (s : Stake) : Type 0 where
  left : Member PublicKey
  returns : remove_stake m i ≡ some left
  sums : (w : Stake → ℕ) → sum_by w left.stakes + w s ≡ sum_by w m.stakes
  shorter : suc (length left.stakes) ≡ length m.stakes

remove_stake-Taken :
    {PublicKey : Type 0} (m : Member PublicKey) (i : ℕ) (s : Stake)
    → get_elem? m.stakes i ≡ some s
    → Taken m i s
unfolding remove_stake
remove_stake-Taken m i s h =
    let at : i < length m.stakes = get_elem?-lt m.stakes i s h in
    let (last, e) = get_elem?-some m.stakes (length m.stakes - 1) (omega arith) in
    let ss = take (length m.stakes - 1) (set m.stakes i last) in
    record {
      left = record m { stakes = ss };
      returns = rw (e, remove_stake);
      sums = λ w. swapped-sum w m.stakes (length m.stakes - 1) i s last (omega arith) h e;
      shorter =
          rw (length-take (length m.stakes - 1) (set m.stakes i last), length-set m.stakes i last)
            (omega arith);
    }

passes-lt : (n : ℕ) → n < passes n
passes-lt zero = omega arith
passes-lt (suc n) = omega (arith, passes-lt n)

module _ (round : ℕ) where
  abbrev pub Live : Stake → Type 0
  Live s = ltb s.end_height round ≡ false

  -- What a stake counts for if it is not expired, and what is removed with it if it is.
  abbrev pub live : (Stake → ℕ) → Stake → ℕ
  live w s = if ltb s.end_height round then 0 else w s

  abbrev pub expired : Stake → ℕ
  expired s = if ltb s.end_height round then s.amount else 0

  All-take-suc :
      (ss : List Stake) (i : ℕ) (s : Stake)
      → All Live (take i ss)
      → get_elem? ss i ≡ some s
      → Live s
      → All Live (take (suc i) ss)
  All-take-suc [] i s a h l = tt
  All-take-suc (x ∷ ss) zero s a h l = (let e : x ≡ s = cc in rw e l, tt)
  All-take-suc (x ∷ ss) (suc i) s a h l = (a.0, All-take-suc ss i s a.1 h l)

  All-take-all :
      (ss : List Stake) (i : ℕ) → All Live (take i ss) → get_elem? ss i ≡ none → All Live ss
  All-take-all [] i a h = tt
  All-take-all (x ∷ ss) zero a h = absurd (ground arith)
  All-take-all (x ∷ ss) (suc i) a h = (a.0, All-take-all ss i a.1 h)

  -- The stakes are counted by any weight, so that `kept` says which stakes are left, each as often as
  -- it was there.
  pub record Expired {PublicKey : Type 0} (before : Member PublicKey) (total : ℕ)
      (after : Member PublicKey) (total' : ℕ) : Type 0 where
    pub none_left : All Live after.stakes
    pub kept : (w : Stake → ℕ) → sum_by w after.stakes ≡ sum_by (live w) before.stakes
    pub removed : total' ≡ (total + sum_by expired before.stakes) % 2 ^ 64

  live-All :
      (w : Stake → ℕ) (ss : List Stake)
      → All Live ss
      → (sum_by w ss ≡ sum_by (live w) ss) × (sum_by expired ss ≡ 0)
  live-All w [] a = (refl, refl)
  live-All w (s ∷ ss) a = let (e, f) = live-All w ss a.1 in (rw (a.0, e), rw (a.0, f))

  expire_loop_lem :
      {PublicKey : Type 0} (fuel : ℕ) (m : Member PublicKey) (i total : ℕ)
      → total < 2 ^ 64
      → i ≤ length m.stakes
      → All Live (take i m.stakes)
      → passes (length m.stakes) ≤ fuel + i
      → Expired m total (expire_loop fuel round m i total).0 (expire_loop fuel round m i total).1
  unfolding expire_loop
  expire_loop_lem zero m i total t le a f = absurd (omega (arith, passes-lt (length m.stakes)))
  expire_loop_lem (suc fuel) m i total t le a f = elim (Option-cases (get_elem? m.stakes i)) [
    | inl end ↦
        rw (end, expire_loop)
          record {
            none_left = All-take-all m.stakes i a end;
            kept = λ w. (live-All w m.stakes (All-take-all m.stakes i a end)).0;
            removed = omega (arith, (live-All (λ s. 0) m.stakes (All-take-all m.stakes i a end)).1);
          }
    | inr (s, at) ↦ elim (Bool-cases (ltb s.end_height round)) [
      | inr ok ↦
          rw (at, ok, expire_loop)
            (expire_loop_lem fuel m (suc i) total t (get_elem?-lt m.stakes i s at)
              (All-take-suc m.stakes i s a at ok) (omega arith))
      | inl late ↦
          let gone = remove_stake-Taken m i s at in
          let ih =
            expire_loop_lem fuel gone.left 0 ((total + s.amount) % 2 ^ 64) (omega arith)
              (omega arith) tt
              (let q : passes (length m.stakes)
                    ≡ passes (length gone.left.stakes) + suc (suc (length gone.left.stakes)) =
                  rw (← gone.shorter) in
                omega arith) in
          let out : expired s ≡ s.amount = rw late in
          rw (at, late, gone.returns, expire_loop)
            record {
              none_left = ih.none_left;
              kept = λ w.
                  let zero_at : live w s ≡ 0 = rw late in
                  omega (arith, ih.kept w, gone.sums (live w));
              removed = omega (arith, ih.removed, gone.sums expired);
            }
    ]
  ]

  pub expire_member-Expired :
      {PublicKey : Type 0} (m : Member PublicKey) (total : ℕ)
      → total < 2 ^ 64
      → Expired m total (expire_member round m total).0 (expire_member round m total).1
  unfolding expire_member
  expire_member-Expired m total t =
      expire_loop_lem (expire_fuel m.stakes) m 0 total t (omega arith) tt (omega arith)
