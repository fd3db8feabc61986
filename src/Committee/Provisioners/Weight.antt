-- ===== src/Committee/Provisioners/Weight.antt =====
-- The amounts that a member has at stake, and what the changes of a map of members do to the sum over all
-- of them.
use dusk_blockchain.Base.{
  ℕ, ◌+◌, ◌%◌, ◌^◌, ◌<◌, ◌≡◌, refl, ap, arith, Bool-cases, inl, inr, List, [], ◌∷◌, Option, none,
  some,
}
use dusk_blockchain.Base.Assoc.{
  Key, same_swap, lookup, insert, delete, lookup-insert, lookup-delete,
}
use dusk_blockchain.Committee.Provisioners.{Stake, total_stake}

-- The sum of a weight over the stakes, and over the entries of a map.
abbrev pub sum_by : (Stake → ℕ) → List Stake → ℕ
sum_by w [] = 0
sum_by w (s ∷ ss) = w s + sum_by w ss

pub total_stake_lem :
    (ss : List Stake) (total : ℕ)
    → total < 2 ^ 64
    → total_stake ss total ≡ (total + sum_by (λ s. s.amount) ss) % 2 ^ 64
unfolding total_stake
total_stake_lem [] total h = omega arith
total_stake_lem (s ∷ ss) total h = omega (arith, total_stake_lem ss ((total + s.amount) % 2 ^ 64))

abbrev pub weight_at : {V : Type 0} → (V → ℕ) → Option V → ℕ
weight_at w none = 0
weight_at w (some v) = w v

module _ {K V : Type 0} ⦃key : Key K⦄ where
  abbrev pub sum_of : (V → ℕ) → List (K × V) → ℕ
  sum_of w [] = 0
  sum_of w ((k, v) ∷ m) = w v + sum_of w m

  -- No key has two entries.
  abbrev pub Unique : List (K × V) → Type 0
  Unique [] = Unit {0}
  Unique ((k, v) ∷ m) = (lookup k m ≡ none) × Unique m

  pub sum_of-insert :
      (w : V → ℕ) (k : K) (v : V) (m : List (K × V))
      → sum_of w (insert k v m) + weight_at w (lookup k m) ≡ sum_of w m + w v
  unfolding lookup insert
  sum_of-insert w k v [] = omega arith
  sum_of-insert w k v ((j, u) ∷ m) = elim (Bool-cases (key.same j k)) [
    | inl hit ↦ rw hit (omega arith)
    | inr miss ↦ rw miss (omega (arith, sum_of-insert w k v m))
  ]

  delete-absent : (k : K) (m : List (K × V)) → lookup k m ≡ none → delete k m ≡ m
  unfolding lookup delete
  delete-absent k [] h = refl
  delete-absent k ((j, u) ∷ m) h = elim (Bool-cases (key.same j k)) [
    | inl hit ↦ absurd (ground arith)
    | inr miss ↦ rw miss (ap (λ t. (j, u) ∷ t) (delete-absent k m (ground arith)))
  ]

  pub sum_of-delete :
      (w : V → ℕ) (k : K) (m : List (K × V))
      → Unique m
      → sum_of w (delete k m) + weight_at w (lookup k m) ≡ sum_of w m
  unfolding lookup delete
  sum_of-delete w k [] h = refl
  sum_of-delete w k ((j, u) ∷ m) h = elim (Bool-cases (key.same j k)) [
    | inl hit ↦ rw hit (rw (delete-absent k m (rw (← key.same→eq j k hit) h.0)) (omega arith))
    | inr miss ↦ rw miss (omega (arith, sum_of-delete w k m))
  ]

  pub insert-Unique : (k : K) (v : V) (m : List (K × V)) → Unique m → Unique (insert k v m)
  unfolding insert lookup
  insert-Unique k v [] h = (refl, tt)
  insert-Unique k v ((j, u) ∷ m) h = elim (Bool-cases (key.same j k)) [
    | inl hit ↦ rw hit (rw (← key.same→eq j k hit) h.0, h.1)
    | inr miss ↦
        rw miss (rw (lookup-insert k j v m, same_swap k j, miss) h.0, insert-Unique k v m h.1)
  ]

  pub delete-Unique : (k : K) (m : List (K × V)) → Unique m → Unique (delete k m)
  unfolding delete
  delete-Unique k [] h = h
  delete-Unique k ((j, u) ∷ m) h = elim (Bool-cases (key.same j k)) [
    | inl hit ↦ rw hit (delete-Unique k m h.1)
    | inr miss ↦ rw miss (rw (lookup-delete k j m, same_swap k j, miss) h.0, delete-Unique k m h.1)
  ]
