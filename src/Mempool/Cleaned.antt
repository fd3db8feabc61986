-- ===== src/Mempool/Cleaned.antt =====
-- An accepted block takes its own transactions out of the pool, and no other.
use mathlib.Core.List.{Mem, mem-cons_self, mem-cons_of_mem}
use mathlib.Core.Option.{some-injective}
use dusk_blockchain.Base.{
  ℕ, ◌≡◌, ◌≢◌, ◌⊎◌, ◌∙◌, sym, ap, subst, arith, inl, inr, Bool, Bool-cases, true, false, ◌==◌, All,
  List, [], ◌∷◌, map, some, if◌then◌else◌,
}
use dusk_blockchain.Base.Assoc.{lookup, insert}
use dusk_blockchain.Encoding.Buffer.{Bytes, bytes_key, equal_refl, eq→equal}
use dusk_blockchain.Crypto.Merkle.{Tree, new_tree}
use dusk_blockchain.Crypto.Merkle.Verified.{Hashed}
use dusk_blockchain.Crypto.Merkle.Content.{any_equal, verify_content-new_tree}
use dusk_blockchain.Transactions.Transaction.{Transaction, calculate_hash}
use dusk_blockchain.Block.Body.{Block}
use dusk_blockchain.Block.Root.{tx_hash}
use dusk_blockchain.Mempool.Pool.{TxDesc, HashMap, array, has, len, put}
use dusk_blockchain.Mempool.Pending.{Mempool}
use dusk_blockchain.Mempool.Accepted.{
  new_pool, in_block, keep_others, clean_up, remove_accepted, on_accepted_block,
}
use dusk_blockchain.Mempool.Exclusive.{Sized, inputs_of, put_hashed_lem, has-insert, written}

module _ (sha3_256 : Bytes → Bytes) (id : Transaction → Bytes) where
  -- An entry that stands under its transaction's hash, which the transaction remembers, and whose key
  -- images have 32 bytes.
  pub record IsSettled (e : Bytes × TxDesc) : Type 0 where
    pub hashed : calculate_hash sha3_256 e.1.tx ≡ some (id e.1.tx, e.1.tx)
    pub keyed : e.0 ≡ array (id e.1.tx)
    pub sized : All Sized (inputs_of e.1)

  put_settled :
      (s : HashMap) (e : Bytes × TxDesc)
      → IsSettled e
      → ((put sha3_256 s e.1).0 ≡ true)
        × ((put sha3_256 s e.1).1.entries ≡ insert e.0 e.1 s.entries)
  unfolding put
  put_settled s e v =
      let done = put_hashed_lem sha3_256 s e.1 (id e.1.tx) v.sized in
      rw (v.hashed, put, v.keyed) (ap (λ r. r.0) done, ap (λ r. r.1.entries) done)

  module _ (tree : Tree Transaction) where
    abbrev keep : List (Bytes × TxDesc) → HashMap → HashMap
    keep = keep_others sha3_256 tree

    abbrev is_mined : Bytes × TxDesc → Bool
    is_mined e = in_block sha3_256 tree e.1.tx

    keep-is_mined :
        (e : Bytes × TxDesc) (es : List (Bytes × TxDesc)) (s : HashMap)
        → is_mined e ≡ true
        → keep (e ∷ es) s ≡ keep es s
    unfolding keep_others
    keep-is_mined (k, t) es s h = rw h

    keep_other :
        (e : Bytes × TxDesc) (es : List (Bytes × TxDesc)) (s : HashMap)
        → is_mined e ≡ false
        → IsSettled e
        → keep (e ∷ es) s ≡ keep es (put sha3_256 s e.1).1
    unfolding keep_others
    keep_other (k, t) es s h v = rw (h, (put_settled s (k, t) v).0)

    -- What is in the new pool came from the old one, and is not in the block.
    keep_sound :
        (es : List (Bytes × TxDesc)) (s : HashMap) (k : Bytes) (t : TxDesc)
        → All IsSettled es
        → lookup k (keep es s).entries ≡ some t
        → (lookup k s.entries ≡ some t)
          ⊎ (Mem (k, t) es × (is_mined (k, t) ≡ false) × IsSettled (k, t))
    unfolding keep_others
    keep_sound [] s k t v h = inl h
    keep_sound (e ∷ es) s k t v h = elim (Bool-cases (is_mined e)) [
      | inl mined ↦ later (keep_sound es s k t v.1 (rw (keep-is_mined e es s mined) at h))
      | inr other ↦
          elim (keep_sound es (put sha3_256 s e.1).1 k t v.1
            (rw (keep_other e es s other v.0) at h)) [
              | inl here ↦
                  elim (written e.0 k e.1 t s.entries (rw ((put_settled s e v.0).1) at here)) [
                    | inl (same, also) ↦
                        let whole : e ≡ (k, t) = cc in
                        inr (rw (← whole) mem-cons_self, rw (← also) other, rw (← whole) v.0)
                    | inr old ↦ inl old
                  ]
              | inr (m, free, settled) ↦ inr (mem-cons_of_mem e m, free, settled)
            ]
    ]
      where
        later :
            (lookup k s.entries ≡ some t)
              ⊎ (Mem (k, t) es × (is_mined (k, t) ≡ false) × IsSettled (k, t))
            → (lookup k s.entries ≡ some t)
              ⊎ (Mem (k, t) (e ∷ es) × (is_mined (k, t) ≡ false) × IsSettled (k, t))
        later (inl h) = inl h
        later (inr (m, free, settled)) = inr (mem-cons_of_mem e m, free, settled)

    -- What the new pool has, it keeps.
    keep-has :
        (es : List (Bytes × TxDesc)) (s : HashMap) (k : Bytes)
        → All IsSettled es
        → has k s.entries ≡ true
        → has k (keep es s).entries ≡ true
    unfolding keep_others
    keep-has [] s k v h = h
    keep-has (e ∷ es) s k v h = elim (Bool-cases (is_mined e)) [
      | inl mined ↦ rw (keep-is_mined e es s mined) (keep-has es s k v.1 h)
      | inr other ↦ rw (keep_other e es s other v.0) (
          keep-has es (put sha3_256 s e.1).1 k v.1
            (rw ((put_settled s e v.0).1) (has-insert e.0 k e.1 s.entries ∙ ground arith)))
    ]

    -- Each entry that is not in the block is in the pool.
    abbrev Complete : List (Bytes × TxDesc) → HashMap → Type 0
    Complete es pool = All (λ e. is_mined e ≡ false → has e.0 pool.entries ≡ true) es

    keep-Complete :
        (es : List (Bytes × TxDesc)) (s : HashMap) → All IsSettled es → Complete es (keep es s)
    keep-Complete [] s v = tt
    keep-Complete (e ∷ es) s v = elim (Bool-cases (is_mined e)) [
      | inl mined ↦
          subst (Complete (e ∷ es)) (sym (keep-is_mined e es s mined))
            ((λ free. let both : true ≡ false = sym mined ∙ free in cc), keep-Complete es s v.1)
      | inr other ↦
          let s' = (put sha3_256 s e.1).1 in
          let there : has e.0 s'.entries ≡ true = rw ((put_settled s e v.0).1) (
            has-insert e.0 e.0 e.1 s.entries
            ∙ ap (λ b. if b then true else has e.0 s.entries) (equal_refl e.0)) in
          subst (Complete (e ∷ es)) (sym (keep_other e es s other v.0))
            ((λ free. keep-has es s' e.0 v.1 there), keep-Complete es s' v.1)
    ]

  -- What the tree over the block's transactions says of a settled one.
  mined_lem :
      (b : Block) (tx : Transaction) (txs : List Transaction) (tree : Tree Transaction)
      (e : Bytes × TxDesc)
      → b.txs ≡ tx ∷ txs
      → All (Hashed (tx_hash sha3_256) id) (tx ∷ txs)
      → new_tree (tx_hash sha3_256) sha3_256 b.txs ≡ some tree
      → IsSettled e
      → in_block sha3_256 tree e.1.tx ≡ any_equal (id e.1.tx) (map id (tx ∷ txs))
  unfolding in_block tx_hash
  mined_lem b tx txs tree e held hashed made v =
      let (t, built, says) =
        verify_content-new_tree (tx_hash sha3_256) sha3_256 id tx txs e.1.tx hashed
          (rw (v.hashed)) in
      let same : t ≡ tree = some-injective _ _ (sym built ∙ rw held at made) in
      rw (← same, in_block, says)

  -- All entries, with what is said of those that the block does not hold.
  unmined_lem :
      (b : Block) (tx : Transaction) (txs : List Transaction) (tree : Tree Transaction)
      (pool : HashMap) (es : List (Bytes × TxDesc))
      → b.txs ≡ tx ∷ txs
      → All (Hashed (tx_hash sha3_256) id) (tx ∷ txs)
      → new_tree (tx_hash sha3_256) sha3_256 b.txs ≡ some tree
      → All IsSettled es
      → Complete tree es pool
      → All
          (λ e. any_equal (id e.1.tx) (map id (tx ∷ txs)) ≡ false → has e.0 pool.entries ≡ true)
          es
  unmined_lem b tx txs tree pool [] held hashed made v all = tt
  unmined_lem b tx txs tree pool (e ∷ es) held hashed made v all = (
    λ free. all.0 (mined_lem b tx txs tree e held hashed made v.0 ∙ free),
    unmined_lem b tx txs tree pool es held hashed made v.1 all.1,
  )

  module _ (order : List (Bytes × TxDesc) → List (Bytes × TxDesc)) (prealloc_txs : ℕ) where
    cleaned_pool :
        (m : Mempool) (b : Block) (tree : Tree Transaction)
        → new_tree (tx_hash sha3_256) sha3_256 b.txs ≡ some tree
        → tree.merkle_root ≡ b.header.tx_root
        → len m.verified ≢ 0
        → (on_accepted_block sha3_256 order prealloc_txs m b).verified
          ≡ keep tree (order m.verified.entries) (new_pool prealloc_txs)
    unfolding on_accepted_block remove_accepted clean_up
    cleaned_pool m b tree made root some_left =
        let full : (len m.verified == 0) ≡ false = ground arith in
        let same = eq→equal tree.merkle_root b.header.tx_root root in
        rw (full, made, clean_up, same)

    -- After a block whose root is that of its transactions, the pool holds only entries that it held and
    -- that are not in the block, and all of those, in whatever order Go goes through the entries; where
    -- each entry stands under the hash that its transaction remembers.
    pub on_accepted_block_lem :
        (m : Mempool) (b : Block) (tx : Transaction) (txs : List Transaction)
        (tree : Tree Transaction)
        → b.txs ≡ tx ∷ txs
        → All (Hashed (tx_hash sha3_256) id) (tx ∷ txs)
        → new_tree (tx_hash sha3_256) sha3_256 b.txs ≡ some tree
        → tree.merkle_root ≡ b.header.tx_root
        → len m.verified ≢ 0
        → All IsSettled (order m.verified.entries)
        → ((k : Bytes) (t : TxDesc)
            → lookup k (on_accepted_block sha3_256 order prealloc_txs m b).verified.entries ≡ some t
            → Mem (k, t) (order m.verified.entries)
              × (any_equal (id t.tx) (map id (tx ∷ txs)) ≡ false))
          × All
              (λ e.
                any_equal (id e.1.tx) (map id (tx ∷ txs)) ≡ false
                → has e.0 (on_accepted_block sha3_256 order prealloc_txs m b).verified.entries
                  ≡ true)
              (order m.verified.entries)
    unfolding new_pool lookup
    on_accepted_block_lem m b tx txs tree held hashed made root some_left v =
        let es = order m.verified.entries in
        let pool = cleaned_pool m b tree made root some_left in
        (
          λ k t h. elim (keep_sound tree es (new_pool prealloc_txs) k t v (rw pool at h)) [
            | inl none_there ↦ absurd cc
            | inr (there, free, settled) ↦
                (there, sym (mined_lem b tx txs tree (k, t) held hashed made settled) ∙ free)
          ],
          rw pool (
              unmined_lem b tx txs tree (keep tree es (new_pool prealloc_txs)) es held hashed made v
                (keep-Complete tree es (new_pool prealloc_txs) v)),
        )
