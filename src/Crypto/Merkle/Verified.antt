-- ===== src/Crypto/Merkle/Verified.antt =====
-- The tree over payloads that can be hashed is built, and verifies.
use dusk_blockchain.Base.{
  suc, ◌%◌, ◌≤◌, ◌≡◌, refl, sym, ap, arith, inl, inr, true, false, Bool-cases, ◌==◌, All, List, [],
  ◌∷◌, length, map, Option, some,
}
use dusk_blockchain.Encoding.Buffer.{Bytes, equal_refl}
use dusk_blockchain.Crypto.Merkle.{
  Node, leaf, inner, hash, duplicate, with_duplicate, make_even, Tree, build, make_leaves, new_tree,
  verify_node, verify_tree,
}
use dusk_blockchain.Crypto.Merkle.Levels.{
  IsSound, IsParent, create_intermediate_total, create_intermediate-Built, Built,
}

module _ {Payload : Type 0} (id : Payload → Bytes) where
  abbrev pub leaf_of : Payload → Node Payload
  leaf_of p = leaf p (id p) false

  pub length-with_duplicate :
      (l : Node Payload) (ls : List (Node Payload))
      → length (with_duplicate (l ∷ ls)) ≡ suc (length (l ∷ ls))
  unfolding with_duplicate
  length-with_duplicate l [] = refl
  length-with_duplicate l (m ∷ ls) = ap suc (length-with_duplicate m ls)

  pub make_even-length :
      (l : Node Payload) (ls : List (Node Payload))
      → (2 ≤ length (make_even (l ∷ ls))) × (length (make_even (l ∷ ls)) % 2 ≡ 0)
  unfolding make_even
  make_even-length l ls = elim (Bool-cases (length (l ∷ ls) % 2 == 1)) [
    | inl odd ↦ rw odd (let n = length-with_duplicate l ls in (omega arith, ground arith))
    | inr even ↦ rw even (ground arith, ground arith)
  ]

module _ {Payload : Type 0} (calculate_hash : Payload → Option Bytes) (id : Payload → Bytes) where
  -- The payload's hash can be calculated, and is `id`.
  abbrev pub Hashed : Payload → Type 0
  Hashed p = calculate_hash p ≡ some (id p)

  -- A leaf node over a payload and its hash.
  unfoldable pub IsLeaf : Node Payload → Type 0
  IsLeaf (leaf p h dup) = Hashed p × (h ≡ id p)
  IsLeaf (inner left right h) = ⊥

  pub make_leaves_lem :
      (pl : List Payload)
      → All Hashed pl
      → make_leaves calculate_hash pl ≡ some (map (leaf_of id) pl)
  unfolding make_leaves
  make_leaves_lem [] v = refl
  make_leaves_lem (p ∷ pl) v = rw (v.0, make_leaves_lem pl v.1)

  leaves-IsLeaf : (pl : List Payload) → All Hashed pl → All IsLeaf (map (leaf_of id) pl)
  unfolding IsLeaf
  leaves-IsLeaf [] v = tt
  leaves-IsLeaf (p ∷ pl) v = ((v.0, refl), leaves-IsLeaf pl v.1)

  with_duplicate-IsLeaf :
      (ls : List (Node Payload)) → All IsLeaf ls → All IsLeaf (with_duplicate ls)
  unfolding with_duplicate duplicate IsLeaf
  with_duplicate-IsLeaf [] v = tt
  with_duplicate-IsLeaf (leaf p h dup ∷ []) v = (v.0, (v.0, tt))
  with_duplicate-IsLeaf (inner left right h ∷ []) v = absurd v.0
  with_duplicate-IsLeaf (l ∷ m ∷ ls) v = (v.0, with_duplicate-IsLeaf (m ∷ ls) v.1)

  make_even-IsLeaf : (ls : List (Node Payload)) → All IsLeaf ls → All IsLeaf (make_even ls)
  unfolding make_even
  make_even-IsLeaf ls v = elim (Bool-cases (length ls % 2 == 1)) [
    | inl odd ↦ rw odd (with_duplicate-IsLeaf ls v)
    | inr even ↦ rw even v
  ]

module _ {Payload : Type 0} (calculate_hash : Payload → Option Bytes) (sha3_256 : Bytes → Bytes)
    (id : Payload → Bytes) where
  IsLeaf-IsSound :
      (ls : List (Node Payload))
      → All (IsLeaf calculate_hash id) ls
      → All (IsSound calculate_hash sha3_256) ls
  unfolding IsLeaf IsSound
  IsLeaf-IsSound [] v = tt
  IsLeaf-IsSound (leaf p h dup ∷ ls) v = (rw v.0.1 v.0.0, IsLeaf-IsSound ls v.1)
  IsLeaf-IsSound (inner left right h ∷ ls) v = absurd v.0

  -- What `NewTree` builds of payloads that can be hashed.
  pub record IsTreeOf (pl : List Payload) (t : Tree Payload) : Type 0 where
    pub made : new_tree calculate_hash sha3_256 pl ≡ some t
    pub root : t.merkle_root ≡ hash t.root
    pub sound : IsSound calculate_hash sha3_256 t.root
    pub levels : All (All (IsParent calculate_hash sha3_256)) t.levels
    pub leaves : t.leaves ≡ make_even (map (leaf_of id) pl)
    pub are_leaves : All (IsLeaf calculate_hash id) t.leaves

  pub new_tree_lem :
      (p : Payload) (pl : List Payload)
      → All (Hashed calculate_hash id) (p ∷ pl)
      → (t : Tree Payload) × IsTreeOf (p ∷ pl) t
  unfolding new_tree build Built
  new_tree_lem p pl v =
      let ls = make_even (map (leaf_of id) (p ∷ pl)) in
      let all =
        make_even-IsLeaf calculate_hash id (map (leaf_of id) (p ∷ pl))
          (leaves-IsLeaf calculate_hash id (p ∷ pl) v) in
      let (two, _) = make_even-length id (leaf_of id p) (map (leaf_of id) pl) in
      let (r, made) = create_intermediate_total sha3_256 (length ls) ls two (omega arith) in
      let (sound, levels) =
        create_intermediate-Built calculate_hash sha3_256 (length ls) ls r (IsLeaf-IsSound ls all)
          made in
      (
        record { root = r.0; merkle_root = hash r.0; leaves = ls; levels = r.1 },
        record {
          made = rw (make_leaves_lem calculate_hash id (p ∷ pl) v, made);
          root = refl;
          sound = sound;
          levels = levels;
          leaves = refl;
          are_leaves = all;
        },
      )

  pub verify_node_lem :
      (n : Node Payload)
      → IsSound calculate_hash sha3_256 n
      → verify_node calculate_hash sha3_256 n ≡ some (hash n)
  unfolding verify_node IsSound
  verify_node_lem (leaf p h dup) v = v
  verify_node_lem (inner left right h) v =
      rw (verify_node_lem right v.1, verify_node_lem left v.0) (ap some (sym v.2))

  -- The tree over payloads of which there is at least one and each can be hashed is built, and its
  -- verification succeeds: every hash in it is that of what lies below.
  pub verify_tree-new_tree :
      (p : Payload) (pl : List Payload)
      → All (Hashed calculate_hash id) (p ∷ pl)
      → (t : Tree Payload) × (new_tree calculate_hash sha3_256 (p ∷ pl) ≡ some t)
        × (verify_tree calculate_hash sha3_256 t ≡ some true)
  unfolding verify_tree
  verify_tree-new_tree p pl v =
      let (t, tree) = new_tree_lem p pl v in
      (
        t,
        tree.made,
        rw (verify_node_lem t.root tree.sound, tree.root) (ap some (equal_refl (hash t.root))),
      )
