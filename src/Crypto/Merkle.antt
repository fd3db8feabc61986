-- ===== src/Crypto/Merkle.antt =====
-- pkg/crypto/merkletree/merkletree.go: the hash tree over a block's transactions. A node is its
-- subtree; the `Parent` pointers of the leaves are the tree's levels, where the parent of a level's
-- node `i` is node `i / 2` of the level above.
pub mod Levels
pub mod Verified
pub mod Content
pub mod Root
use dusk_blockchain.Base.{
  ℕ, zero, suc, ◌/◌, ◌%◌, Bool, true, false, List, [], ◌∷◌, ◌++◌, length, get_elem?, map, Option,
  none, some, if◌then◌else◌, ◌==◌,
}
use dusk_blockchain.Base.Options.{◌>>=◌}
use dusk_blockchain.Encoding.Buffer.{Bytes, equal}

-- A leaf with its payload, its hash and its `IsDup`, or an inner node with its children and its hash.
pub data Node (Payload : Type 0) : Type 0 where
  leaf : Payload → Bytes → Bool → Node Payload
  inner : Node Payload → Node Payload → Bytes → Node Payload

-- `leaves` are the leaf nodes, and `levels` the inner nodes that were built over them, from the
-- parents of the leaves up to the root.
pub record Tree (Payload : Type 0) : Type 0 where
  pub root : Node Payload
  pub merkle_root : Bytes
  pub leaves : List (Node Payload)
  pub levels : List (List (Node Payload))

abbrev pub hash : {Payload : Type 0} → Node Payload → Bytes
hash (leaf payload h dup) = h
hash (inner left right h) = h

module _ {Payload : Type 0} where
  unfoldable pub duplicate : Node Payload → Node Payload
  duplicate (leaf payload h dup) = leaf payload h true
  duplicate (inner left right h) = inner left right h

  -- The last leaf once more, behind the others.
  unfoldable pub with_duplicate : List (Node Payload) → List (Node Payload)
  unfolding duplicate
  with_duplicate [] = []
  with_duplicate (previous ∷ []) = previous ∷ duplicate previous ∷ []
  with_duplicate (l ∷ m ∷ ls) = l ∷ with_duplicate (m ∷ ls)

  unfoldable pub make_even : List (Node Payload) → List (Node Payload)
  make_even leaves = if length leaves % 2 == 1 then with_duplicate leaves else leaves

  payloads : List (Node Payload) → List Payload
  payloads [] = []
  payloads (leaf payload h dup ∷ ls) = payload ∷ payloads ls
  payloads (inner left right h ∷ ls) = payloads ls

  -- The chain of parents of node `i` of the level below.
  unfoldable pub parents : ℕ → List (List (Node Payload)) → List (Node Payload)
  parents i [] = []
  parents i (level ∷ above) = elim (get_elem? level (i / 2)) [
    | none ↦ []
    | some p ↦ p ∷ parents (i / 2) above
  ]

-- `sha3_256` is the hash of golang.org/x/crypto.
module _ {Payload : Type 0} (sha3_256 : Bytes → Bytes) where
  -- The nodes over a level, two by two; a last one without a partner is both its parent's children.
  unfoldable pub join : Node Payload → Node Payload → Node Payload
  join left right = inner left right (sha3_256 (hash left ++ hash right))

  unfoldable pub pair_up : List (Node Payload) → List (Node Payload)
  pair_up [] = []
  pair_up (left ∷ []) = join left left ∷ []
  pair_up (left ∷ right ∷ rest) = join left right ∷ pair_up rest

  -- The root, and the levels up to it; `none` is the loop that goes on for ever.
  unfoldable pub create_intermediate :
      ℕ → List (Node Payload) → Option (Node Payload × List (List (Node Payload)))
  create_intermediate zero nl = none
  create_intermediate (suc fuel) (left ∷ right ∷ []) =
      some (join left right, (join left right ∷ []) ∷ [])
  create_intermediate (suc fuel) nl = do
    (root, levels) ← create_intermediate fuel (pair_up nl)
    some (root, pair_up nl ∷ levels)

  -- As many rounds as there are leaves are more than enough.
  unfoldable pub build : List (Node Payload) → Option (Tree Payload)
  build leaves = do
    (root, levels) ← create_intermediate (length leaves) leaves
    some (record { root = root; merkle_root = hash root; leaves = leaves; levels = levels })

-- The payload's `CalculateHash`, where `none` is an error.
module _ {Payload : Type 0} (calculate_hash : Payload → Option Bytes) where
  unfoldable pub make_leaves : List Payload → Option (List (Node Payload))
  make_leaves [] = some []
  make_leaves (payload ∷ pl) = do
    h ← calculate_hash payload
    leaves ← make_leaves pl
    some (leaf payload h false ∷ leaves)

  unfoldable pub equals : Payload → Payload → Option Bool
  equals a b = do hash_a ← calculate_hash a; hash_b ← calculate_hash b; some (equal hash_a hash_b)

module _ {Payload : Type 0} (calculate_hash : Payload → Option Bytes)
    (sha3_256 : Bytes → Bytes) where
  -- The right child first.
  unfoldable pub verify_node : Node Payload → Option Bytes
  verify_node (leaf payload h dup) = calculate_hash payload
  verify_node (inner left right h) = do
    right_bytes ← verify_node right
    left_bytes ← verify_node left
    some (sha3_256 (left_bytes ++ right_bytes))

  unfoldable pub calculate_node_hash : Node Payload → Option Bytes
  calculate_node_hash (leaf payload h dup) = calculate_hash payload
  calculate_node_hash (inner left right h) = some (sha3_256 (hash left ++ hash right))

  -- `create` refuses an empty list.
  unfoldable pub new_tree : List Payload → Option (Tree Payload)
  new_tree [] = none
  new_tree (payload ∷ pl) = do
    leaves ← make_leaves calculate_hash (payload ∷ pl)
    build sha3_256 (make_even leaves)

  unfoldable pub rebuild_tree : Tree Payload → Option (Tree Payload)
  unfolding payloads
  rebuild_tree t = new_tree (payloads t.leaves)

  unfoldable pub verify_tree : Tree Payload → Option Bool
  verify_tree t = do
    calculated_root ← verify_node t.root
    some (equal t.merkle_root calculated_root)

  -- A leaf is no parent: its children are nil, and their hash panics.
  unfoldable pub check_parents : List (Node Payload) → Option Bool
  check_parents [] = some true
  check_parents (leaf payload h dup ∷ ps) = none
  check_parents (inner left right h ∷ ps) = do
    right_bytes ← calculate_node_hash right
    left_bytes ← calculate_node_hash left
    if equal (sha3_256 (left_bytes ++ right_bytes)) h then check_parents ps else some false

  -- The loop over the leaves, of which the first is the tree's leaf `i`.
  unfoldable pub search_leaves :
      List (List (Node Payload)) → Payload → ℕ → List (Node Payload) → Option Bool
  search_leaves levels payload i [] = some false
  search_leaves levels payload i (inner left right h ∷ ls) = none
  search_leaves levels payload i (leaf at h dup ∷ ls) = do
    found ← equals calculate_hash at payload
    if found then check_parents (parents i levels) else search_leaves levels payload (suc i) ls

  unfoldable pub verify_content : Tree Payload → Payload → Option Bool
  verify_content t payload = search_leaves t.levels payload 0 t.leaves
