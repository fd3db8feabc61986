-- ===== src/Crypto/Merkle/Content.antt =====
-- What is found in the tree.
use dusk_blockchain.Base.{
  ℕ, zero, suc, ◌/◌, ◌%◌, ◌≡◌, refl, sym, ap, ◌∙◌, subst, arith, inl, inr, true, false, Bool, ◌||◌,
  Bool-cases, ◌==◌, All, List, [], ◌∷◌, ◌++◌, length, get_elem?, map, Option, none, some,
}
use dusk_blockchain.Encoding.Buffer.{Bytes, equal, equal_refl}
use dusk_blockchain.Crypto.Merkle.{
  Node, leaf, inner, hash, duplicate, with_duplicate, make_even, Tree, new_tree, parents, equals,
  calculate_node_hash, check_parents, search_leaves, verify_content,
}
use dusk_blockchain.Crypto.Merkle.Levels.{IsSound, IsParent}
use dusk_blockchain.Crypto.Merkle.Verified.{leaf_of, Hashed, IsLeaf, new_tree_lem}

-- One of the hashes is `h`.
unfoldable pub any_equal : Bytes → List Bytes → Bool
any_equal h [] = false
any_equal h (k ∷ ks) = equal k h || any_equal h ks

module _ {Payload : Type 0} where
  with_duplicate-any_equal :
      (h : Bytes) (ls : List (Node Payload))
      → any_equal h (map hash (with_duplicate ls)) ≡ any_equal h (map hash ls)
  unfolding any_equal with_duplicate duplicate
  with_duplicate-any_equal h [] = refl
  with_duplicate-any_equal h (leaf p k dup ∷ []) = ground arith
  with_duplicate-any_equal h (inner left right k ∷ []) = ground arith
  with_duplicate-any_equal h (l ∷ m ∷ ls) = rw (with_duplicate-any_equal h (m ∷ ls))

  make_even-any_equal :
      (h : Bytes) (ls : List (Node Payload))
      → any_equal h (map hash (make_even ls)) ≡ any_equal h (map hash ls)
  unfolding make_even
  make_even-any_equal h ls = elim (Bool-cases (length ls % 2 == 1)) [
    | inl odd ↦ rw odd (with_duplicate-any_equal h ls)
    | inr even ↦ rw even
  ]

module _ {Payload : Type 0} (id : Payload → Bytes) where
  leaves-any_equal :
      (h : Bytes) (pl : List Payload)
      → any_equal h (map hash (map (leaf_of id) pl)) ≡ any_equal h (map id pl)
  unfolding any_equal
  leaves-any_equal h [] = refl
  leaves-any_equal h (p ∷ pl) = rw (leaves-any_equal h pl)

module _ {Payload : Type 0} (P : Node Payload → Type 0) where
  get_elem?-All :
      (ls : List (Node Payload)) (i : ℕ) (n : Node Payload)
      → All P ls
      → get_elem? ls i ≡ some n
      → P n
  get_elem?-All [] i n v e = cc
  get_elem?-All (l ∷ ls) zero n v e = let same : l ≡ n = cc in subst P same v.0
  get_elem?-All (l ∷ ls) (suc i) n v e = get_elem?-All ls i n v.1 e

  -- The chain of parents is made of nodes of the levels.
  parents-All :
      (i : ℕ) (levels : List (List (Node Payload))) → All (All P) levels → All P (parents i levels)
  unfolding parents
  parents-All i [] v = tt
  parents-All i (level ∷ above) v =
      split (get_elem? level (i / 2)) refl (parents-All (i / 2) above v.1)
    where
      split :
          (o : Option (Node Payload))
          → get_elem? level (i / 2) ≡ o
          → All P (parents (i / 2) above)
          → All P (parents i (level ∷ above))
      split none e rest = rw (e, parents) tt
      split (some n) e rest = rw (e, parents) (get_elem?-All level (i / 2) n v.0 e, rest)

module _ {Payload : Type 0} (calculate_hash : Payload → Option Bytes)
    (sha3_256 : Bytes → Bytes) where
  calculate_node_hash_lem :
      (n : Node Payload)
      → IsSound calculate_hash sha3_256 n
      → calculate_node_hash calculate_hash sha3_256 n ≡ some (hash n)
  unfolding calculate_node_hash IsSound
  calculate_node_hash_lem (leaf p h dup) v = v
  calculate_node_hash_lem (inner left right h) v = ap some (sym v.2)

  check_parents_lem :
      (ps : List (Node Payload))
      → All (IsParent calculate_hash sha3_256) ps
      → check_parents calculate_hash sha3_256 ps ≡ some true
  unfolding check_parents IsParent IsSound
  check_parents_lem [] v = refl
  check_parents_lem (leaf p h dup ∷ ps) v = absurd v.0
  check_parents_lem (inner left right h ∷ ps) v =
      let same : equal (sha3_256 (hash left ++ hash right)) h ≡ true =
        rw (← v.0.2) (equal_refl h) in
      rw (
        calculate_node_hash_lem right v.0.1,
        calculate_node_hash_lem left v.0.0,
        same,
        check_parents_lem ps v.1,
      )

  module _ (id : Payload → Bytes) where
    search_leaves_lem :
        (levels : List (List (Node Payload))) (p : Payload) (i : ℕ) (ls : List (Node Payload))
        → All (All (IsParent calculate_hash sha3_256)) levels
        → Hashed calculate_hash id p
        → All (IsLeaf calculate_hash id) ls
        → search_leaves calculate_hash sha3_256 levels p i ls
          ≡ some (any_equal (id p) (map hash ls))
    unfolding search_leaves any_equal IsLeaf equals
    search_leaves_lem levels p i [] sound hashed v = refl
    search_leaves_lem levels p i (inner left right h ∷ ls) sound hashed v = absurd v.0
    search_leaves_lem levels p i (leaf at h dup ∷ ls) sound hashed v =
        rw (v.0.0, hashed, v.0.1)
          (elim (Bool-cases (equal (id at) (id p))) [
            | inl found ↦ rw (
              found,
              check_parents_lem (parents i levels) (parents-All (IsParent _ _) i levels sound),
            )
            | inr other ↦ rw (other, search_leaves_lem levels p (suc i) ls sound hashed v.1)
          ])

    -- The tree over payloads finds a payload exactly when one of them has its hash.
    pub verify_content-new_tree :
        (p : Payload) (pl : List Payload) (q : Payload)
        → All (Hashed calculate_hash id) (p ∷ pl)
        → Hashed calculate_hash id q
        → (t : Tree Payload) × (new_tree calculate_hash sha3_256 (p ∷ pl) ≡ some t)
          × (verify_content calculate_hash sha3_256 t q ≡ some (any_equal (id q) (map id (p ∷ pl))))
    unfolding verify_content
    verify_content-new_tree p pl q v hashed =
        let (t, tree) = new_tree_lem calculate_hash sha3_256 id p pl v in
        (
          t,
          tree.made,
          search_leaves_lem t.levels q 0 t.leaves tree.levels hashed tree.are_leaves
              ∙ ap (λ ls. some (any_equal (id q) (map hash ls))) tree.leaves
              ∙ ap some (make_even-any_equal (id q) (map (leaf_of id) (p ∷ pl)))
              ∙ ap some (leaves-any_equal id (id q) (p ∷ pl)),
        )
