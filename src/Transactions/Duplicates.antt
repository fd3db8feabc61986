-- ===== src/Transactions/Duplicates.antt =====
-- pkg/core/transactions/inputs.go and outputs.go, HasDuplicates: the keys of a list, compared in pairs
-- from both ends.
use dusk_blockchain.Base.{
  ℕ, zero, suc, ◌+◌, ◌-◌, ◌<◌, ◌≡◌, ◌↔◌, refl, subst, arith, inl, inr, Bool, Bool-cases, true,
  false, List, [], ◌∷◌, length, map, get_elem?, none, some, ltb, if◌then◌else◌,
}
use dusk_blockchain.Encoding.Buffer.{Bytes, equal}
use dusk_blockchain.Transactions.Input.{Input}
use dusk_blockchain.Transactions.Output.{Output}

-- `bytes.Equal(in[i].Key, in[j].Key)`, with indices that are in range.
unfoldable pub equal_at : List Bytes → ℕ → ℕ → Bool
equal_at keys i j = elim (get_elem? keys i) [
  | none ↦ false
  | some a ↦ elim (get_elem? keys j) [ none ↦ false | some b ↦ equal a b ]
]

-- The loop from `i` up and `j` down, while `i < j`.
unfoldable pub duplicates_from : ℕ → List Bytes → ℕ → ℕ → Bool
duplicates_from zero keys i j = false
duplicates_from (suc fuel) keys i j =
    let rest = duplicates_from fuel keys (i + 1) (j - 1) in
    if ltb i j then (if equal_at keys i j then true else rest) else false

-- `len(in) - 1` is `-1` for an empty list, and the loop is not entered.
unfoldable pub has_duplicates : List Bytes → Bool
has_duplicates keys = duplicates_from (length keys) keys 0 (length keys - 1)

unfoldable pub has_duplicate_inputs : List Input → Bool
has_duplicate_inputs inputs = has_duplicates (map (λ i. i.key_image) inputs)

unfoldable pub has_duplicate_outputs : List Output → Bool
has_duplicate_outputs outputs = has_duplicates (map (λ o. o.dest_key) outputs)

-- No pair that the loop from `i` and `j` comes to is equal.
abbrev pub NoPair : List Bytes → ℕ → ℕ → Type 0
NoPair keys i j = (k : ℕ) → i + k < j - k → equal_at keys (i + k) (j - k) ≡ false

duplicates_from→NoPair :
    (fuel : ℕ) (keys : List Bytes) (i j k : ℕ)
    → duplicates_from fuel keys i j ≡ false
    → j < i + fuel + fuel
    → i + k < j - k
    → equal_at keys (i + k) (j - k) ≡ false
unfolding duplicates_from
duplicates_from→NoPair zero keys i j k h more r = absurd (omega arith)
duplicates_from→NoPair (suc fuel) keys i j zero h more r =
    let entered : ltb i j ≡ true = ground arith in
    let here : equal_at keys i j ≡ false = ground arith in
    let e : i + 0 ≡ i = omega arith in let d : j - 0 ≡ j = omega arith in rw (e, d) here
duplicates_from→NoPair (suc fuel) keys i j (suc k) h more r =
    let entered : ltb i j ≡ true = ground arith in
    let rest : duplicates_from fuel keys (i + 1) (j - 1) ≡ false = ground arith in
    let e : i + suc k ≡ i + 1 + k = omega arith in
    let d : j - suc k ≡ j - 1 - k = omega arith in
    rw (e, d) (duplicates_from→NoPair fuel keys (i + 1) (j - 1) k rest (omega arith) (omega arith))

NoPair→duplicates_from :
    (fuel : ℕ) (keys : List Bytes) (i j : ℕ)
    → NoPair keys i j
    → duplicates_from fuel keys i j ≡ false
unfolding duplicates_from
NoPair→duplicates_from zero keys i j h = refl
NoPair→duplicates_from (suc fuel) keys i j h = elim (Bool-cases (ltb i j)) [
  | inr out ↦ rw out
  | inl within ↦
      let e : i + 0 ≡ i = omega arith in
      let d : j - 0 ≡ j = omega arith in
      let here : equal_at keys i j ≡ false = rw (e, d) at (h 0 (ground arith)) in
      let rest = NoPair→duplicates_from fuel keys (i + 1) (j - 1) (λ k r.
        let a : i + suc k ≡ i + 1 + k = omega arith in
        let b : j - suc k ≡ j - 1 - k = omega arith in
        subst (λ n. equal_at keys n (j - 1 - k) ≡ false) a
          (subst (λ n. equal_at keys (i + suc k) n ≡ false) b (h (suc k) (omega arith)))) in
      rw (within, here) rest
]

-- No duplicate is reported exactly when each key differs from the one that is as far from the end as it
-- is from the front.
pub has_duplicates_iff :
    (keys : List Bytes) → (has_duplicates keys ≡ false) ↔ NoPair keys 0 (length keys - 1)
unfolding has_duplicates
has_duplicates_iff keys = (
  λ h k r. duplicates_from→NoPair (length keys) keys 0 (length keys - 1) k h (omega arith) r,
  NoPair→duplicates_from (length keys) keys 0 (length keys - 1),
)

-- Three keys of which the first two are equal and the third is another are taken for distinct.
pub has_duplicates_misses :
    (a b : Bytes) → equal a b ≡ false → has_duplicates (a ∷ a ∷ b ∷ []) ≡ false
unfolding has_duplicates duplicates_from equal_at
has_duplicates_misses a b h = rw h
