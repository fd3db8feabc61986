-- ===== src/Agreement/Committee.antt =====
-- pkg/core/consensus/committee/agreement.go as the handler of the agreement sees it, when the committee
-- of each round and step is drawn.
use dusk_blockchain.Base.{
  ℕ, ◌≡◌, ◌≤◌, subst, arith, true, ◌==◌, [], ◌∷◌, length, All, Bool-cases, inl, inr,
}
use dusk_blockchain.SortedSet.{Set, bits, intersect}
use dusk_blockchain.SortedSet.Search.{Increasing, has}
use dusk_blockchain.SortedSet.Bitset.{Subset, intersect-bits}
use dusk_blockchain.Agreement.Handler.{Foldable}
use dusk_blockchain.Agreement.Handler.Agreed.{Unpacks}

unfoldable pub drawn_committees : (ℕ → ℕ) → (ℕ → ℕ → Set) → Foldable
drawn_committees quorum committee = record {
  quorum = quorum;
  pack = λ keys round step. bits (committee round step) keys;
  unpack = λ bitset round step. intersect (committee round step) bitset;
}

Subset-members : (keys members : Set) → All (λ k. has members k ≡ true) keys → Subset keys members
unfolding has
Subset-members [] members h = λ j e. cc
Subset-members (k ∷ keys) members (hk, h) = λ j e. elim (Bool-cases (k == j)) [
  | inl here ↦ let same : k ≡ j = ground arith in subst (λ i. has members i ≡ true) same hk
  | inr other ↦ Subset-members keys members h j (rw other at e)
]

-- A committee of at most 64 members unpacks what it packed of them.
pub drawn_committees-Unpacks :
    (quorum : ℕ → ℕ) (committee : ℕ → ℕ → Set) (round step : ℕ)
    → Increasing (committee round step)
    → length (committee round step) ≤ 64
    → Unpacks (drawn_committees quorum committee) round step (committee round step)
unfolding drawn_committees
drawn_committees-Unpacks quorum committee round step s small = λ keys i inside.
    intersect-bits (committee round step) keys s i
      (Subset-members keys (committee round step) inside) small
