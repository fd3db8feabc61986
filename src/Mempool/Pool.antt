-- ===== src/Mempool/Pool.antt =====
-- pkg/core/mempool/hashmap.go: the pool of verified transactions, by identifier, and the key images
-- that they spend.
use dusk_blockchain.Base.{
  ℕ, ◌+◌, ◌%◌, ◌^◌, Bool, true, false, ◌==◌, if◌then◌else◌, List, [], ◌∷◌, length, none, some,
}
use dusk_blockchain.Base.Assoc.{lookup, insert}
use dusk_blockchain.Encoding.Buffer.{Bytes, bytes_key}
use dusk_blockchain.Wire.Topics.{padded}
use dusk_blockchain.Transactions.Input.{Input}
use dusk_blockchain.Transactions.Transaction.{Transaction, standard_tx, calculate_hash}

-- The times are those at which it was received and verified.
pub record TxDesc : Type 0 where
  pub tx : Transaction
  pub received : ℕ
  pub verified : ℕ

-- Nil maps read like empty ones.
pub record HashMap : Type 0 where
  pub entries : List (Bytes × TxDesc)
  pub spent_key_images : List (Bytes × Bool)
  pub capacity : ℕ
  pub txs_size : ℕ

-- `copy(k[:], bs)` into an array of 32 zeros.
abbrev pub array : Bytes → Bytes
array bs = padded 32 bs

-- Whether the map has the key.
unfoldable pub has : {V : Type 0} → Bytes → List (Bytes × V) → Bool
has k m = elim (lookup k m) [ none ↦ false | some v ↦ true ]

unfoldable pub contains : HashMap → Bytes → Bool
contains m tx_id = has (array tx_id) m.entries

unfoldable pub contains_key_image : HashMap → Bytes → Bool
contains_key_image m image = has (array image) m.spent_key_images

unfoldable pub len : HashMap → ℕ
len m = length m.entries

-- The loop over the inputs, which ends with an error at a key image of another size: `false`.
unfoldable pub store_images : HashMap → List Input → Bool × HashMap
store_images m [] = (true, m)
store_images m (input ∷ inputs) =
    let rest =
      store_images
        (record m { spent_key_images = insert (array input.key_image) true m.spent_key_images })
        inputs in
    if length input.key_image == 32 then rest else (false, m)

-- `sha3_256` is the hash of golang.org/x/crypto.
module _ (sha3_256 : Bytes → Bytes) where
  -- An interface value takes sixteen bytes.
  unfoldable pub put_hashed : HashMap → TxDesc → Bytes → Bool × HashMap
  put_hashed m t tx_id =
      store_images
        (record m {
          entries = insert (array tx_id) t m.entries;
          txs_size = (m.txs_size + 16) % 2 ^ 64;
        })
        (standard_tx t.tx).inputs

  -- Whether it went well, and the pool.
  unfoldable pub put : HashMap → TxDesc → Bool × HashMap
  put m t = elim (calculate_hash sha3_256 t.tx) [
    | none ↦ (false, m)
    | some (tx_id, hashed) ↦ put_hashed m (record t { tx = hashed }) tx_id
  ]
