-- ===== src/Base/Assoc.antt =====
-- Go maps as association lists: a read of a missing key gives `none`, a write replaces or adds one
-- entry, and a delete takes every entry of its key out.
use dusk_blockchain.Base.Tests.{◌==◌, if◌then◌else◌, Bool-cases}
use Prim.Native.Nat.{ℕ}
use native.Mathlib.Omega.{arith}
use mathlib.Core.Path.{◌≡◌, refl, ap, sym}
use mathlib.Core.Logic.{inl, inr}
use mathlib.Core.Bool.{Bool, true, false}
use mathlib.Core.Option.{Option, none, some}
use mathlib.Core.List.{List, [], ◌∷◌}

-- A type of keys with its equality test.
pub record Key (K : Type 0) : Type 0 where
  pub same : K → K → Bool
  pub same→eq : (a b : K) → same a b ≡ true → a ≡ b
  pub same_refl : (a : K) → same a a ≡ true

pub nat_same→eq : (a b : ℕ) → (a == b) ≡ true → a ≡ b
nat_same→eq a b h = ground arith

pub nat_same_refl : (a : ℕ) → (a == a) ≡ true
nat_same_refl a = ground arith

instance abbrev pub nat_key : Key ℕ
nat_key = record { same = ◌==◌; same→eq = nat_same→eq; same_refl = nat_same_refl }

module _ {K : Type 0} ⦃key : Key K⦄ where
  same_trans : (a b c : K) → key.same a b ≡ true → key.same a c ≡ key.same b c
  same_trans a b c h = ap (λ x. key.same x c) (key.same→eq a b h)

  pub same_swap : (a b : K) → key.same a b ≡ key.same b a
  same_swap a b = elim (Bool-cases (key.same a b)) [
    | inl e ↦ rw e (rw (key.same→eq a b e) (sym (key.same_refl b)))
    | inr e ↦ elim (Bool-cases (key.same b a)) [
      | inl f ↦ rw (key.same→eq b a f)
      | inr f ↦ rw (e, f)
    ]
  ]

module _ {K V : Type 0} ⦃key : Key K⦄ where
  unfoldable pub lookup : K → List (K × V) → Option V
  lookup k [] = none
  lookup k ((j, v) ∷ m) = if key.same j k then some v else lookup k m

  unfoldable pub insert : K → V → List (K × V) → List (K × V)
  insert k v [] = (k, v) ∷ []
  insert k v ((j, w) ∷ m) = if key.same j k then (k, v) ∷ m else (j, w) ∷ insert k v m

  unfoldable pub delete : K → List (K × V) → List (K × V)
  delete k [] = []
  delete k ((j, w) ∷ m) = if key.same j k then delete k m else (j, w) ∷ delete k m

  -- What is read at a key after a write and after a delete.
  pub lookup-insert :
      (k j : K) (v : V) (m : List (K × V))
      → lookup j (insert k v m) ≡ (if key.same k j then some v else lookup j m)
  unfolding lookup insert
  lookup-insert k j v [] = refl
  lookup-insert k j v ((i, w) ∷ m) = elim (Bool-cases (key.same i k)) [
    | inl hit ↦
        let e : key.same i j ≡ key.same k j = same_trans i k j hit in rw (hit, e) (ground arith)
    | inr miss ↦
        rw (miss, lookup-insert k j v m)
          (elim (Bool-cases (key.same k j)) [
            | inl at ↦ let e : key.same i j ≡ false = rw (← key.same→eq k j at) miss in rw (at, e)
            | inr off ↦ rw off
          ])
  ]

  pub lookup-delete :
      (k j : K) (m : List (K × V))
      → lookup j (delete k m) ≡ (if key.same k j then none else lookup j m)
  unfolding lookup delete
  lookup-delete k j [] = elim (Bool-cases (key.same k j)) [ inl e ↦ rw e | inr e ↦ rw e ]
  lookup-delete k j ((i, w) ∷ m) = elim (Bool-cases (key.same i k)) [
    | inl hit ↦
        let e : key.same i j ≡ key.same k j = same_trans i k j hit in
        rw (hit, e, lookup-delete k j m) (ground arith)
    | inr miss ↦
        rw (miss, lookup-delete k j m)
          (elim (Bool-cases (key.same k j)) [
            | inl at ↦ let e : key.same i j ≡ false = rw (← key.same→eq k j at) miss in rw (at, e)
            | inr off ↦ rw off
          ])
  ]
