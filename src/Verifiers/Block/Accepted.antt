-- ===== src/Verifiers/Block/Accepted.antt =====
-- What holds of a block that the checks let pass.
use dusk_blockchain.Base.{
  ℕ, suc, ◌+◌, ◌%◌, ◌^◌, ◌≤◌, ◌≡◌, ◌≢◌, ◌∙◌, refl, sym, ap, subst, arith, inl, inr, Bool,
  Bool-cases, true, false, ◌==◌, not, ltb, All, List, [], ◌∷◌, map, Option, none, some,
}
use mathlib.Core.Option.{some-injective}
use dusk_blockchain.Base.Options.{>>=-eq-some}
use dusk_blockchain.Crypto.Merkle.{new_tree}
use dusk_blockchain.Encoding.Buffer.{Bytes, equal, equal→eq}
use dusk_blockchain.Transactions.Output.{Output}
use dusk_blockchain.Transactions.Standard.{coinbase_type}
use dusk_blockchain.Transactions.Coinbase.{Coinbase}
use dusk_blockchain.Transactions.Transaction.{
  Transaction, standard, time_lock, bid, stake, coinbase, standard_tx, type, with_id,
}
use dusk_blockchain.Verifiers.Faults.{Check, both-pass, guard-pass}
use dusk_blockchain.Verifiers.Transaction.{
  Queries, generator_reward, max_lock_time, check_tx, check_special_fields, check_reward,
  verify_coinbase,
}
use dusk_blockchain.Verifiers.Transaction.Accepted.{IsPayable, check_tx-IsPayable, lock}
use dusk_blockchain.Block.Body.{Block}
use dusk_blockchain.Block.Root.{set_root, with_root, tx_hash, remembered, remembered_lem}
use dusk_blockchain.Verifiers.Block.{
  leb_int64, check_root, check_fields, check_block_header, check_coinbases, check_multi_coinbases,
  check_txs, Stored, found, not_found, failed, check_unseen, check_after_header, check_block,
}

-- The header follows that of the previous block.
pub record IsNext (prev_block blk : Block) : Type 0 where
  pub version : blk.header.version ≡ 0
  pub previous : blk.header.prev_block_hash ≡ prev_block.header.hash
  pub height : blk.header.height ≡ (prev_block.header.height + 1) % 2 ^ 64
  pub later : leb_int64 blk.header.timestamp prev_block.header.timestamp ≡ false

pub check_fields-IsNext :
    (prev_block blk : Block) → check_fields prev_block blk ≡ none → IsNext prev_block blk
unfolding check_fields
check_fields-IsNext prev_block blk h =
    let (version, h1) = guard-pass (ltb 0 blk.header.version) _ _ h in
    let (previous, h2) =
      guard-pass (not (equal blk.header.prev_block_hash prev_block.header.hash)) _ _ h1 in
    let (height, h3) =
      guard-pass (not (blk.header.height == (prev_block.header.height + 1) % 2 ^ 64)) _ _ h2 in
    let (later, h4) =
      guard-pass (leb_int64 blk.header.timestamp prev_block.header.timestamp) _ _ h3 in
    record {
      version = ground arith;
      previous = ground (arith, equal→eq blk.header.prev_block_hash prev_block.header.hash);
      height = ground arith;
      later = later;
    }

-- The type in the struct of a transaction that is no coinbase is not that of a coinbase.
unfoldable pub IsTyped : Transaction → Type 0
IsTyped (coinbase c) = Unit {0}
IsTyped tx = type tx ≢ coinbase_type

module _ (db : Queries) where
  -- One output, of the fixed amount.
  abbrev pub IsReward : Coinbase → Type 0
  IsReward c =
      (o : Output) × (c.rewards ≡ o ∷ []) × (db.scalar o.encrypted_amount ≡ generator_reward)

  abbrev pub IsSpending : Transaction → Type 0
  IsSpending tx =
      (type tx ≢ coinbase_type) × IsPayable db (standard_tx tx) × (lock tx ≤ max_lock_time)

  -- Behind a coinbase that was seen, or from the second place on, no coinbase passes.
  rest_IsSpending :
      (seen : Bool) (i time : ℕ) (txs : List Transaction)
      → seen ≡ true
      → check_coinbases seen txs ≡ none
      → check_txs db i time txs ≡ none
      → All IsSpending txs
  unfolding check_coinbases check_txs
  rest_IsSpending seen i time [] s h k = tt
  rest_IsSpending seen i time (tx ∷ txs) s h k =
      let (here, there) = both-pass (check_tx db i time tx) (check_txs db (suc i) time txs) k in
      elim (Bool-cases (type tx == coinbase_type)) [
        | inl is ↦ absurd (ground arith)
        | inr other ↦
            let differs : type tx ≢ coinbase_type = λ e. ground arith in
            let more : check_coinbases seen txs ≡ none = ground arith in
            let (payable, locked) = check_tx-IsPayable db i time tx differs here in
            ((differs, payable, locked), rest_IsSpending seen (suc i) time txs s more there)
      ]

  coinbase_special :
      (i time : ℕ) (tx : Transaction)
      → IsTyped tx
      → type tx ≡ coinbase_type
      → check_tx db i time tx ≡ none
      → (c : Coinbase) × (tx ≡ coinbase c) × (verify_coinbase db i c ≡ none)
  unfolding IsTyped check_tx check_special_fields
  coinbase_special i time (coinbase c) v e h = (c, refl, (both-pass _ (verify_coinbase db i c) h).1)
  coinbase_special i time (standard s) v e h = absurd (v e)
  coinbase_special i time (time_lock t) v e h = absurd (v e)
  coinbase_special i time (bid b) v e h = absurd (v e)
  coinbase_special i time (stake s) v e h = absurd (v e)

  none_later :
      (i time : ℕ) (txs : List Transaction)
      → All IsTyped txs
      → check_coinbases false txs ≡ none
      → check_txs db (suc i) time txs ≡ none
      → ⊥
  unfolding check_coinbases check_txs verify_coinbase
  none_later i time [] v h k = cc
  none_later i time (tx ∷ txs) v h k =
      let (here, there) =
        both-pass (check_tx db (suc i) time tx) (check_txs db (suc (suc i)) time txs) k in
      elim (Bool-cases (type tx == coinbase_type)) [
        | inl is ↦
            let (c, e, bad) = coinbase_special (suc i) time tx v.0 (ground arith) here in
            ground arith
        | inr other ↦ none_later (suc i) time txs v.1 (ground arith) there
      ]

  check_reward-one :
      (outputs : List Output)
      → check_reward db outputs ≡ none
      → (o : Output) × (outputs ≡ o ∷ []) × (db.scalar o.encrypted_amount ≡ generator_reward)
  unfolding check_reward
  check_reward-one [] h = cc
  check_reward-one (o ∷ []) h = (o, refl, ground arith)
  check_reward-one (o ∷ p ∷ outputs) h = cc

  verify_coinbase-IsReward : (c : Coinbase) → verify_coinbase db 0 c ≡ none → IsReward c
  unfolding verify_coinbase
  verify_coinbase-IsReward c h = check_reward-one c.rewards h

  -- The transactions of an accepted block: a coinbase in front that pays the reward, and behind it
  -- transactions that spend.
  pub starts_with_coinbase :
      (time : ℕ) (txs : List Transaction)
      → All IsTyped txs
      → check_multi_coinbases txs ≡ none
      → check_txs db 0 time txs ≡ none
      → (c : Coinbase) × (rest : List Transaction) × (txs ≡ coinbase c ∷ rest)
        × IsReward c
        × All IsSpending rest
  unfolding check_multi_coinbases check_coinbases check_txs
  starts_with_coinbase time [] v h k = cc
  starts_with_coinbase time (tx ∷ txs) v h k =
      let (here, there) = both-pass (check_tx db 0 time tx) (check_txs db 1 time txs) k in
      elim (Bool-cases (type tx == coinbase_type)) [
        | inl is ↦
            let (c, e, good) = coinbase_special 0 time tx v.0 (ground arith) here in
            let only : check_coinbases true txs ≡ none = ground arith in
            (
              c,
              txs,
              ap (λ t. t ∷ txs) e,
              verify_coinbase-IsReward c good,
              rest_IsSpending true 1 time txs refl only there,
            )
        | inr other ↦ absurd (none_later 0 time txs v.1 (ground arith) there)
      ]

with_id-IsTyped : (id : Bytes) (tx : Transaction) → IsTyped tx → IsTyped (with_id id tx)
unfolding with_id IsTyped type
with_id-IsTyped id (standard s) v = v
with_id-IsTyped id (time_lock t) v = v
with_id-IsTyped id (bid b) v = v
with_id-IsTyped id (stake s) v = v
with_id-IsTyped id (coinbase c) v = v

module _ (sha3_256 : Bytes → Bytes) where
  remembered-IsTyped : (tx : Transaction) → IsTyped tx → IsTyped (remembered sha3_256 tx)
  remembered-IsTyped tx v = elim (remembered_lem sha3_256 tx) [
    | inl e ↦ rw e v
    | inr (id, e) ↦ rw e (with_id-IsTyped id tx v)
  ]

  map-IsTyped :
      (txs : List Transaction) → All IsTyped txs → All IsTyped (map (remembered sha3_256) txs)
  map-IsTyped [] v = tt
  map-IsTyped (tx ∷ txs) v = (remembered-IsTyped tx v.0, map-IsTyped txs v.1)

  set_root-txs :
      (blk rooted : Block)
      → set_root sha3_256 blk ≡ some rooted
      → rooted.txs ≡ map (remembered sha3_256) blk.txs
  unfolding set_root with_root
  set_root-txs blk rooted h =
      let (tree, e, made) = >>=-eq-some (new_tree (tx_hash sha3_256) sha3_256 blk.txs) _ h in
      sym (ap (λ b. b.txs) (some-injective _ _ made))

  check_root-pass :
      (blk : Block) (o : Option Block)
      → (check_root blk o).0 ≡ none
      → (rooted : Block) × (o ≡ some rooted)
        × (blk.header.tx_root ≡ rooted.header.tx_root)
        × ((check_root blk o).1 ≡ rooted)
  unfolding check_root
  check_root-pass blk none h = cc
  check_root-pass blk (some rooted) h =
      (rooted, refl, ground (arith, equal→eq blk.header.tx_root rooted.header.tx_root), refl)

  check_header-pass :
      (prev_block blk : Block) (fields : Check)
      → check_fields prev_block blk ≡ fields
      → (check_block_header sha3_256 prev_block blk).0 ≡ none
      → (check_fields prev_block blk ≡ none)
        × (check_block_header sha3_256 prev_block blk ≡ check_root blk (set_root sha3_256 blk))
  unfolding check_block_header
  check_header-pass prev_block blk none e h = (e, rw (e, check_block_header))
  check_header-pass prev_block blk (some fault) e h = absurd (cc (rw (e, check_block_header) at h))

  -- What an accepted block satisfies, with the block that the checks leave.
  pub record IsAccepted (stored : Bytes → Stored) (db : Queries) (prev_block blk rooted : Block)
      : Type 0 where
    pub new : stored blk.header.hash ≡ not_found
    pub next : IsNext prev_block blk
    pub root : set_root sha3_256 blk ≡ some rooted
    pub same_root : blk.header.tx_root ≡ rooted.header.tx_root
    pub paid :
        (c : Coinbase) × (rest : List Transaction) × (rooted.txs ≡ coinbase c ∷ rest)
        × IsReward db c
        × All (IsSpending db) rest

  after_header :
      (stored : Bytes → Stored) (db : Queries) (out : Check × Block)
      → (check_after_header sha3_256 stored db out).0 ≡ none
      → (out.0 ≡ none)
        × (check_multi_coinbases out.1.txs ≡ none)
        × (check_txs db 0 out.1.header.timestamp out.1.txs ≡ none)
        × ((check_after_header sha3_256 stored db out).1 ≡ out.1)
  unfolding check_after_header
  after_header stored db (some e, blk) h = cc
  after_header stored db (none, blk) h =
      let (coinbases, each) =
        both-pass (check_multi_coinbases blk.txs) (check_txs db 0 blk.header.timestamp blk.txs) h in
      (refl, coinbases, each, refl)

  unseen-pass :
      (stored : Bytes → Stored) (db : Queries) (prev_block blk : Block) (s : Stored)
      → stored blk.header.hash ≡ s
      → (check_block sha3_256 stored db prev_block blk).0 ≡ none
      → (stored blk.header.hash ≡ not_found)
        × (check_block sha3_256 stored db prev_block blk
            ≡ check_after_header sha3_256 stored db (check_block_header sha3_256 prev_block blk))
  unfolding check_block check_unseen
  unseen-pass stored db prev_block blk found e h = absurd (cc (rw (e, check_block) at h))
  unseen-pass stored db prev_block blk not_found e h = (e, rw (e, check_block))
  unseen-pass stored db prev_block blk failed e h = absurd (cc (rw (e, check_block) at h))

  -- A block that passes is new, follows the previous block, carries the root of its transactions, and
  -- starts with the one coinbase, which pays the reward, before transactions that spend what the chain
  -- has; where no transaction but a coinbase has its type.
  pub check_block-IsAccepted :
      (stored : Bytes → Stored) (db : Queries) (prev_block blk : Block)
      → All IsTyped blk.txs
      → (check_block sha3_256 stored db prev_block blk).0 ≡ none
      → IsAccepted stored db prev_block blk (check_block sha3_256 stored db prev_block blk).1
  check_block-IsAccepted stored db prev_block blk typed h =
      let (new, e) = unseen-pass stored db prev_block blk (stored blk.header.hash) refl h in
      let (good, coinbases, each, same) =
        after_header stored db (check_block_header sha3_256 prev_block blk) (rw e at h) in
      let (fields, rooting) =
        check_header-pass prev_block blk (check_fields prev_block blk) refl good in
      let (rooted, made, same_root, kept) =
        check_root-pass blk (set_root sha3_256 blk) (rw rooting at good) in
      let left : (check_block sha3_256 stored db prev_block blk).1 ≡ rooted =
        ap (λ p. p.1) e ∙ same ∙ ap (λ p. p.1) rooting ∙ kept in
      let out : (check_block_header sha3_256 prev_block blk).1 ≡ rooted =
        ap (λ p. p.1) rooting ∙ kept in
      let all =
        subst (All IsTyped) (sym (set_root-txs blk rooted made)) (map-IsTyped blk.txs typed) in
      rw left (record {
        new = new;
        next = check_fields-IsNext prev_block blk fields;
        root = made;
        same_root = same_root;
        paid =
            starts_with_coinbase db rooted.header.timestamp rooted.txs all (rw out at coinbases)
              (rw out at each);
      })

  root-IsNext :
      (prev_block blk rooted : Block)
      → set_root sha3_256 blk ≡ some rooted
      → IsNext prev_block blk
      → IsNext prev_block rooted
  unfolding set_root with_root
  root-IsNext prev_block blk rooted h n =
      let (tree, e, made) = >>=-eq-some (new_tree (tx_hash sha3_256) sha3_256 blk.txs) _ h in
      subst (IsNext prev_block) (some-injective _ _ made)
        (record { version = n.version; previous = n.previous; height = n.height; later = n.later })

  -- The block that the checks leave follows the previous one, whatever its transactions are.
  pub check_block-IsNext :
      (stored : Bytes → Stored) (db : Queries) (prev_block blk : Block)
      → (check_block sha3_256 stored db prev_block blk).0 ≡ none
      → IsNext prev_block (check_block sha3_256 stored db prev_block blk).1
  check_block-IsNext stored db prev_block blk h =
      let (new, e) = unseen-pass stored db prev_block blk (stored blk.header.hash) refl h in
      let (good, coinbases, each, same) =
        after_header stored db (check_block_header sha3_256 prev_block blk) (rw e at h) in
      let (fields, rooting) =
        check_header-pass prev_block blk (check_fields prev_block blk) refl good in
      let (rooted, made, same_root, kept) =
        check_root-pass blk (set_root sha3_256 blk) (rw rooting at good) in
      let left : (check_block sha3_256 stored db prev_block blk).1 ≡ rooted =
        ap (λ p. p.1) e ∙ same ∙ ap (λ p. p.1) rooting ∙ kept in
      rw left (root-IsNext prev_block blk rooted made (check_fields-IsNext prev_block blk fields))
