-- ===== src/Crypto/Merkle/Levels.antt =====
-- The levels of the tree: they are finitely many, and every node of them is sound.
use dusk_blockchain.Base.{
  ℕ, zero, suc, ◌+◌, ◌/◌, ◌≤◌, ◌≡◌, refl, arith, All, All-map, List, [], ◌∷◌, ◌++◌, length, Option,
  some,
}
use dusk_blockchain.Base.Options.{◌>>=◌, >>=-eq-some}
use dusk_blockchain.Encoding.Buffer.{Bytes}
use dusk_blockchain.Crypto.Merkle.{Node, leaf, inner, hash, join, pair_up, create_intermediate}

module _ {Payload : Type 0} (sha3_256 : Bytes → Bytes) where
  pub length-pair_up :
      (nl : List (Node Payload)) → length (pair_up sha3_256 nl) ≡ (length nl + 1) / 2
  unfolding pair_up
  length-pair_up [] = refl
  length-pair_up (l ∷ []) = refl
  length-pair_up (l ∷ r ∷ rest) = omega (arith, length-pair_up rest)

  -- From two nodes on the loop ends, within as many rounds as there are nodes.
  pub create_intermediate_total :
      (fuel : ℕ) (nl : List (Node Payload))
      → 2 ≤ length nl
      → length nl ≤ suc fuel
      → (r : Node Payload × List (List (Node Payload))) × (create_intermediate sha3_256 fuel nl
          ≡ some r)
  unfolding create_intermediate
  create_intermediate_total zero nl h k = absurd (omega arith)
  create_intermediate_total (suc fuel) [] h k = absurd (omega arith)
  create_intermediate_total (suc fuel) (l ∷ []) h k = absurd (omega arith)
  create_intermediate_total (suc fuel) (l ∷ r ∷ []) h k = (_, refl)
  create_intermediate_total (suc fuel) (l ∷ r ∷ m ∷ ls) h k =
      let n = length-pair_up (l ∷ r ∷ m ∷ ls) in
      let (above, e) =
        create_intermediate_total fuel (pair_up sha3_256 (l ∷ r ∷ m ∷ ls)) (omega arith)
          (omega arith) in
      ((above.0, pair_up sha3_256 (l ∷ r ∷ m ∷ ls) ∷ above.1), rw e)

-- A leaf has its payload's hash, and an inner node the hash of its children's.
module _ {Payload : Type 0} (calculate_hash : Payload → Option Bytes)
    (sha3_256 : Bytes → Bytes) where
  unfoldable pub IsSound : Node Payload → Type 0
  IsSound (leaf payload h dup) = calculate_hash payload ≡ some h
  IsSound (inner left right h) =
      IsSound left × IsSound right × (h ≡ sha3_256 (hash left ++ hash right))

  -- An inner node that is sound.
  unfoldable pub IsParent : Node Payload → Type 0
  unfolding IsSound
  IsParent (leaf payload h dup) = ⊥
  IsParent (inner left right h) = IsSound (inner left right h)

  pub IsParent→IsSound : (n : Node Payload) → IsParent n → IsSound n
  unfolding IsParent
  IsParent→IsSound (leaf payload h dup) v = absurd v
  IsParent→IsSound (inner left right h) v = v

  pair_up-IsParent :
      (nl : List (Node Payload)) → All IsSound nl → All IsParent (pair_up sha3_256 nl)
  unfolding pair_up join IsParent IsSound
  pair_up-IsParent [] v = tt
  pair_up-IsParent (l ∷ []) v = ((v.0, v.0, refl), tt)
  pair_up-IsParent (l ∷ r ∷ rest) v = ((v.0, v.1.0, refl), pair_up-IsParent rest v.1.1)

  next : (nl : List (Node Payload)) → All IsSound nl → All IsSound (pair_up sha3_256 nl)
  next nl v = All-map IsParent→IsSound (pair_up sha3_256 nl) (pair_up-IsParent nl v)

  -- What a level and the root over it are made of.
  unfoldable pub Built : Node Payload × List (List (Node Payload)) → Type 0
  Built (root, levels) = IsSound root × All (All IsParent) levels

  above-Built :
      (fuel : ℕ) (nl : List (Node Payload)) (r : Node Payload × List (List (Node Payload)))
      → All IsSound nl
      → ((above : Node Payload × List (List (Node Payload)))
          → create_intermediate sha3_256 fuel (pair_up sha3_256 nl) ≡ some above
          → Built above)
      → (create_intermediate sha3_256 fuel (pair_up sha3_256 nl) >>= λ above.
          some (above.0, pair_up sha3_256 nl ∷ above.1))
        ≡ some r
      → Built r
  unfolding Built
  above-Built fuel nl r v each e =
      let (above, got, same) =
        >>=-eq-some (create_intermediate sha3_256 fuel (pair_up sha3_256 nl)) _ e in
      let (sound, levels) = each above got in
      let built : (above.0, pair_up sha3_256 nl ∷ above.1) ≡ r = cc same in
      rw (← built) (sound, (pair_up-IsParent nl v, levels))

  pub create_intermediate-Built :
      (fuel : ℕ) (nl : List (Node Payload)) (r : Node Payload × List (List (Node Payload)))
      → All IsSound nl
      → create_intermediate sha3_256 fuel nl ≡ some r
      → Built r
  unfolding create_intermediate Built join IsParent IsSound
  create_intermediate-Built zero nl r v e = cc
  create_intermediate-Built (suc fuel) (l ∷ m ∷ []) r v e =
      let same : (join sha3_256 l m, (join sha3_256 l m ∷ []) ∷ []) ≡ r = cc in
      rw (← same) ((v.0, v.1.0, refl), (((v.0, v.1.0, refl), tt), tt))
  create_intermediate-Built (suc fuel) [] r v e =
      above-Built fuel [] r v (λ above. create_intermediate-Built fuel _ above (next [] v)) e
  create_intermediate-Built (suc fuel) (l ∷ []) r v e =
      above-Built fuel (l ∷ []) r v
        (λ above. create_intermediate-Built fuel _ above (next (l ∷ []) v)) e
  create_intermediate-Built (suc fuel) (l ∷ m ∷ k ∷ ls) r v e =
      above-Built fuel (l ∷ m ∷ k ∷ ls) r v
        (λ above. create_intermediate-Built fuel _ above (next (l ∷ m ∷ k ∷ ls) v)) e
