-- ===== src/Crypto/Merkle/Root.antt =====
-- The root as a function of the payloads' hashes alone.
use dusk_blockchain.Base.{
  ℕ, zero, suc, ◌+◌, ◌/◌, ◌%◌, ◌≤◌, ◌≡◌, refl, sym, ap, ◌∙◌, arith, inl, inr, Bool-cases, ◌==◌, All,
  List, [], ◌∷◌, ◌++◌, length, map, length-map, Option, none, some,
}
use mathlib.Core.Option.{some-injective}
use dusk_blockchain.Base.Options.{◌>>=◌, >>=-eq-some}
use dusk_blockchain.Encoding.Buffer.{Bytes}
use dusk_blockchain.Crypto.Merkle.{
  Node, leaf, inner, hash, duplicate, with_duplicate, make_even, join, pair_up, create_intermediate,
  Tree, build, new_tree,
}
use dusk_blockchain.Crypto.Merkle.Levels.{length-pair_up}
use dusk_blockchain.Crypto.Merkle.Verified.{leaf_of, Hashed, make_even-length, make_leaves_lem}

module _ (sha3_256 : Bytes → Bytes) where
  -- The hashes of a level from those of the level below.
  unfoldable pub pairs : List Bytes → List Bytes
  pairs [] = []
  pairs (a ∷ []) = sha3_256 (a ++ a) ∷ []
  pairs (a ∷ b ∷ rest) = sha3_256 (a ++ b) ∷ pairs rest

  -- Level after level until one hash is left.
  unfoldable pub reduce : ℕ → List Bytes → Option Bytes
  reduce zero hs = none
  reduce (suc fuel) [] = none
  reduce (suc fuel) (h ∷ []) = some h
  reduce (suc fuel) (a ∷ b ∷ rest) = reduce fuel (pairs (a ∷ b ∷ rest))

  length-pairs : (hs : List Bytes) → length (pairs hs) ≡ (length hs + 1) / 2
  unfolding pairs
  length-pairs [] = refl
  length-pairs (a ∷ []) = refl
  length-pairs (a ∷ b ∷ rest) = omega (arith, length-pairs rest)

  -- As many rounds as there are hashes give what any number of rounds gives.
  reduce_enough :
      (fuel more : ℕ) (hs : List Bytes) (h : Bytes)
      → reduce fuel hs ≡ some h
      → length hs ≤ more
      → reduce more hs ≡ some h
  unfolding reduce
  reduce_enough zero more hs h e k = cc
  reduce_enough (suc fuel) more [] h e k = cc
  reduce_enough (suc fuel) zero (a ∷ hs) h e k = absurd (omega arith)
  reduce_enough (suc fuel) (suc more) (a ∷ []) h e k = e
  reduce_enough (suc fuel) (suc more) (a ∷ b ∷ rest) h e k =
      let n = length-pairs (a ∷ b ∷ rest) in
      reduce_enough fuel more (pairs (a ∷ b ∷ rest)) h e (omega arith)

  module _ {Payload : Type 0} where
    map-pair_up : (nl : List (Node Payload)) → map hash (pair_up sha3_256 nl) ≡ pairs (map hash nl)
    unfolding pair_up pairs join
    map-pair_up [] = refl
    map-pair_up (l ∷ []) = refl
    map-pair_up (l ∷ r ∷ rest) = rw (map-pair_up rest)

    above-reduce :
        (fuel : ℕ) (nl : List (Node Payload)) (r : Node Payload × List (List (Node Payload)))
        → ((above : Node Payload × List (List (Node Payload)))
            → create_intermediate sha3_256 fuel (pair_up sha3_256 nl) ≡ some above
            → reduce fuel (pairs (map hash (pair_up sha3_256 nl))) ≡ some (hash above.0))
        → (create_intermediate sha3_256 fuel (pair_up sha3_256 nl) >>= λ above.
            some (above.0, pair_up sha3_256 nl ∷ above.1))
          ≡ some r
        → reduce fuel (pairs (pairs (map hash nl))) ≡ some (hash r.0)
    above-reduce fuel nl r each e =
        let (above, got, same) =
          >>=-eq-some (create_intermediate sha3_256 fuel (pair_up sha3_256 nl)) _ e in
        let root : above.0 ≡ r.0 = ap (λ p. p.0) (some-injective _ _ same) in
        rw (← root) (rw (← map-pair_up nl) (each above got))

    longer : (nl : List (Node Payload)) → 3 ≤ length nl → 2 ≤ length (pair_up sha3_256 nl)
    longer nl h = let n = length-pair_up sha3_256 nl in omega arith

    create_intermediate-reduce :
        (fuel : ℕ) (nl : List (Node Payload)) (r : Node Payload × List (List (Node Payload)))
        → 2 ≤ length nl
        → create_intermediate sha3_256 fuel nl ≡ some r
        → reduce fuel (pairs (map hash nl)) ≡ some (hash r.0)
    unfolding create_intermediate reduce pairs join
    create_intermediate-reduce zero nl r two e = cc
    create_intermediate-reduce (suc fuel) [] r two e = absurd (omega arith)
    create_intermediate-reduce (suc fuel) (l ∷ []) r two e = absurd (omega arith)
    create_intermediate-reduce (suc fuel) (l ∷ m ∷ []) r two e =
        ap (λ p. some (hash p.0)) (some-injective _ _ e)
    create_intermediate-reduce (suc fuel) (l ∷ m ∷ k ∷ []) r two e =
        above-reduce fuel (l ∷ m ∷ k ∷ []) r
          (λ above. create_intermediate-reduce fuel _ above (longer (l ∷ m ∷ k ∷ []) (omega arith)))
          e
    create_intermediate-reduce (suc fuel) (l ∷ m ∷ k ∷ n ∷ ls) r two e =
        above-reduce fuel (l ∷ m ∷ k ∷ n ∷ ls) r
          (λ above.
            create_intermediate-reduce fuel _ above (longer (l ∷ m ∷ k ∷ n ∷ ls) (omega arith)))
          e

    with_duplicate-pairs :
        (ls : List (Node Payload))
        → length ls % 2 ≡ 1
        → pairs (map hash (with_duplicate ls)) ≡ pairs (map hash ls)
    unfolding with_duplicate duplicate pairs
    with_duplicate-pairs [] odd = refl
    with_duplicate-pairs (leaf p h dup ∷ []) odd = refl
    with_duplicate-pairs (inner left right h ∷ []) odd = refl
    with_duplicate-pairs (l ∷ m ∷ []) odd = absurd (omega arith)
    with_duplicate-pairs (l ∷ m ∷ k ∷ ls) odd = rw (with_duplicate-pairs (k ∷ ls) (omega arith))

    -- The duplicate of the last leaf changes nothing above.
    make_even-pairs :
        (ls : List (Node Payload)) → pairs (map hash (make_even ls)) ≡ pairs (map hash ls)
    unfolding make_even
    make_even-pairs ls = elim (Bool-cases (length ls % 2 == 1)) [
      | inl odd ↦ rw odd (with_duplicate-pairs ls (ground arith))
      | inr even ↦ rw even
    ]

module _ {Payload : Type 0} (calculate_hash : Payload → Option Bytes) (sha3_256 : Bytes → Bytes)
    (id : Payload → Bytes) where
  leaf_hashes : (pl : List Payload) → map hash (map (leaf_of id) pl) ≡ map id pl
  leaf_hashes [] = refl
  leaf_hashes (p ∷ pl) = rw (leaf_hashes pl)

  -- The root of a tree that was built over payloads that can be hashed is the hash that is left when
  -- their hashes are paired up level after level, within as many rounds as there are payloads: nothing
  -- else of the payloads, and nothing of the duplicate leaf, goes into it.
  pub merkle_root-new_tree :
      (p : Payload) (pl : List Payload) (t : Tree Payload) (rounds : ℕ)
      → All (Hashed calculate_hash id) (p ∷ pl)
      → new_tree calculate_hash sha3_256 (p ∷ pl) ≡ some t
      → length (p ∷ pl) ≤ rounds
      → reduce sha3_256 rounds (pairs sha3_256 (map id (p ∷ pl))) ≡ some t.merkle_root
  unfolding new_tree build
  merkle_root-new_tree p pl t rounds v e k =
      let ls = make_even (map (leaf_of id) (p ∷ pl)) in
      let built : build sha3_256 ls ≡ some t =
        rw (make_leaves_lem calculate_hash id (p ∷ pl) v) at e in
      let (r, made, same) = >>=-eq-some (create_intermediate sha3_256 (length ls) ls) _ built in
      let root : hash r.0 ≡ t.merkle_root = ap (λ x. x.merkle_root) (some-injective _ _ same) in
      let hashes : pairs sha3_256 (map hash ls) ≡ pairs sha3_256 (map id (p ∷ pl)) =
        make_even-pairs sha3_256 (map (leaf_of id) (p ∷ pl))
        ∙ ap (pairs sha3_256) (leaf_hashes (p ∷ pl)) in
      let two = (make_even-length id (leaf_of id p) (map (leaf_of id) pl)).0 in
      let reduced = create_intermediate-reduce sha3_256 (length ls) ls r two made in
      let n = length-pairs sha3_256 (map id (p ∷ pl)) in
      let m = length-map pl id in
      reduce_enough sha3_256 (length ls) rounds (pairs sha3_256 (map id (p ∷ pl))) t.merkle_root
        (rw (← hashes, ← root) reduced) (omega arith)

  repeated_pairs :
      (hs : List Bytes) (h : Bytes)
      → (length hs % 2 ≡ 0)
      → pairs sha3_256 (hs ++ (h ∷ [])) ≡ pairs sha3_256 (hs ++ (h ∷ h ∷ []))
  unfolding pairs
  repeated_pairs [] h even = refl
  repeated_pairs (a ∷ []) h even = absurd (omega arith)
  repeated_pairs (a ∷ b ∷ hs) h even = rw (repeated_pairs hs h (omega arith))

  map-append : (xs ys : List Payload) → map id (xs ++ ys) ≡ map id xs ++ map id ys
  map-append [] ys = refl
  map-append (x ∷ xs) ys = rw (map-append xs ys)

  same_root :
      (p p' : Payload) (pl pl' : List Payload) (t t' : Tree Payload)
      → All (Hashed calculate_hash id) (p ∷ pl)
      → All (Hashed calculate_hash id) (p' ∷ pl')
      → new_tree calculate_hash sha3_256 (p ∷ pl) ≡ some t
      → new_tree calculate_hash sha3_256 (p' ∷ pl') ≡ some t'
      → pairs sha3_256 (map id (p ∷ pl)) ≡ pairs sha3_256 (map id (p' ∷ pl'))
      → t.merkle_root ≡ t'.merkle_root
  same_root p p' pl pl' t t' v v' e e' same =
      let rounds = length (p ∷ pl) + length (p' ∷ pl') in
      let one = merkle_root-new_tree p pl t rounds v e (omega arith) in
      let two = merkle_root-new_tree p' pl' t' rounds v' e' (omega arith) in
      some-injective _ _ (sym one ∙ ap (reduce sha3_256 rounds) same ∙ two)

  -- An odd number of payloads and the same payloads with the last one once more have the same root.
  pub new_tree_repeats :
      (pl : List Payload) (q : Payload) (t t' : Tree Payload)
      → All (Hashed calculate_hash id) (pl ++ (q ∷ q ∷ []))
      → length pl % 2 ≡ 0
      → new_tree calculate_hash sha3_256 (pl ++ (q ∷ [])) ≡ some t
      → new_tree calculate_hash sha3_256 (pl ++ (q ∷ q ∷ [])) ≡ some t'
      → t.merkle_root ≡ t'.merkle_root
  new_tree_repeats [] q t t' v even e e' =
      same_root q q [] (q ∷ []) t t' (v.0, tt) v e e' (repeated_pairs [] (id q) refl)
  new_tree_repeats (p ∷ pl) q t t' v even e e' =
      let n = length-map pl id in
      same_root p p (pl ++ (q ∷ [])) (pl ++ (q ∷ q ∷ [])) t t' (v.0, but_last pl q v.1) v e e'
        (rw (map-append pl (q ∷ []), map-append pl (q ∷ q ∷ []))
          (repeated_pairs (id p ∷ map id pl) (id q) (omega arith)))
    where
      but_last :
          (xs : List Payload) (x : Payload)
          → All (Hashed calculate_hash id) (xs ++ (x ∷ x ∷ []))
          → All (Hashed calculate_hash id) (xs ++ (x ∷ []))
      but_last [] x h = (h.0, tt)
      but_last (y ∷ xs) x h = (h.0, but_last xs x h.1)
