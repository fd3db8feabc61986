-- ===== src/Transactions/Transaction.antt =====
-- pkg/core/transactions/interfaces.go, transactions.go and hash.go: any transaction, its encoding,
-- its hash and a list of them from a reader.
pub mod RoundTrip
use dusk_blockchain.Base.{
  ℕ, zero, suc, Bool, true, List, [], ◌∷◌, if◌then◌else◌, ◌==◌, Option, none, some, length,
}
use dusk_blockchain.Encoding.Buffer.{
  Bytes, M, Outcome, ok, err, eof, unsupported, fail, ◌>>=◌, ◌>>◌, pure,
}
use dusk_blockchain.Encoding.Codec.{read_times, write_each}
use dusk_blockchain.Transactions.Standard
use dusk_blockchain.Transactions.Standard.{
  Standard, coinbase_type, bid_type, stake_type, standard_type, timelock_type,
}
use dusk_blockchain.Transactions.Locked.{
  TimeLock, Bid, Stake, encode_time_lock, encode_bid, encode_stake, decode_time_lock, decode_bid,
  decode_stake,
}
use dusk_blockchain.Transactions.Coinbase
use dusk_blockchain.Transactions.Coinbase.{Coinbase}

-- The types behind the interface.
pub data Transaction : Type 0 where
  standard : Standard → Transaction
  time_lock : TimeLock → Transaction
  bid : Bid → Transaction
  stake : Stake → Transaction
  coinbase : Coinbase → Transaction

unfoldable pub encode : Transaction → M (Unit {0})
encode (standard s) = Standard.encode s
encode (time_lock t) = encode_time_lock t
encode (bid b) = encode_bid b
encode (stake s) = encode_stake s
encode (coinbase c) = Coinbase.encode c

-- `Type`: the field of the embedded struct, and a constant for a coinbase.
unfoldable pub type : Transaction → ℕ
type (standard s) = s.tx_type
type (time_lock t) = t.standard.tx_type
type (bid b) = b.time_lock.standard.tx_type
type (stake s) = s.time_lock.standard.tx_type
type (coinbase c) = coinbase_type

unfoldable pub standard_tx : Transaction → Standard
standard_tx (standard s) = s
standard_tx (time_lock t) = t.standard
standard_tx (bid b) = b.time_lock.standard
standard_tx (stake s) = s.time_lock.standard
standard_tx (coinbase c) = Coinbase.standard_tx c

-- The `TxID` of the struct, and `TxID = id`.
unfoldable pub tx_id : Transaction → Bytes
tx_id (standard s) = s.tx_id
tx_id (time_lock t) = t.standard.tx_id
tx_id (bid b) = b.time_lock.standard.tx_id
tx_id (stake s) = s.time_lock.standard.tx_id
tx_id (coinbase c) = c.tx_id

unfoldable pub with_id : Bytes → Transaction → Transaction
with_id id (standard s) = standard (record s { tx_id = id })
with_id id (time_lock t) = time_lock (record t { standard = record t.standard { tx_id = id } })
with_id id (bid b) = bid (record b {
  time_lock = record b.time_lock { standard = record b.time_lock.standard { tx_id = id } };
})
with_id id (stake s) = stake (record s {
  time_lock = record s.time_lock { standard = record s.time_lock.standard { tx_id = id } };
})
with_id id (coinbase c) = coinbase (record c { tx_id = id })

-- The switch on the first byte, which each case reads again.
unfoldable pub decode_as : ℕ → M Transaction
decode_as t =
    if t == standard_type
    then (Standard.decode >>= λ s. pure (standard s))
    else if t == timelock_type
    then (decode_time_lock >>= λ l. pure (time_lock l))
    else if t == bid_type
    then (decode_bid >>= λ b. pure (bid b))
    else if t == stake_type
    then (decode_stake >>= λ s. pure (stake s))
    else if t == coinbase_type
    then (Coinbase.decode >>= λ c. pure (coinbase c))
    else fail unsupported

-- One round of the loop: the first byte is looked at and put back.
unfoldable pub decode : M Transaction
decode [] = err eof []
decode (b ∷ bs) = decode_as b (b ∷ bs)

-- All that the reader holds is loaded first, so what follows the last transaction is lost.
unfoldable pub drained : {A : Type 0} → Outcome A → Outcome A
drained (ok a rest) = ok a []
drained (err e rest) = err e []

unfoldable pub from_reader : ℕ → M (List Transaction)
unfolding drained
from_reader num_of_txs buf = drained (read_times decode num_of_txs buf)

-- `sha3_256` is the hash of golang.org/x/crypto, behind pkg/crypto/hash.
module _ (sha3_256 : Bytes → Bytes) where
  unfoldable pub hash_bytes : M (Unit {0}) → Option Bytes
  hash_bytes write_to = elim (write_to []) [ ok _ bs ↦ some (sha3_256 bs) | err _ _ ↦ none ]

  -- The transaction remembers its hash; `none` is the error.
  unfoldable pub calculate_hash : Transaction → Option (Bytes × Transaction)
  calculate_hash tx =
      if length (tx_id tx) == 0
      then elim (hash_bytes (encode tx)) [ none ↦ none | some id ↦ some (id, with_id id tx) ]
      else some (tx_id tx, tx)
