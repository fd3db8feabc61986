-- ===== src/Block/Body/RoundTrip.antt =====
-- A block that was encoded is decoded again.
use dusk_blockchain.Base.{
  ◌^◌, ◌<◌, ◌≡◌, ◌∙◌, ap, All, All-map, List, [], ◌++◌, length, map, append_assoc,
}
use dusk_blockchain.Encoding.Buffer.{Bytes, ok, pure, >>=-ok, >>-ok}
use dusk_blockchain.Encoding.Codec.{RoundTrips, RoundTrips-each_map, write_each, read_times}
use dusk_blockchain.Encoding.VarInt.{read_var_int, write_var_int}
use dusk_blockchain.Encoding.VarInt.RoundTrip.{var_int-RoundTrips}
use dusk_blockchain.Transactions.Transaction
use dusk_blockchain.Transactions.Transaction.{Transaction, from_reader, drained, with_id}
use dusk_blockchain.Transactions.Transaction.RoundTrip.{IsWellFormed, transaction-RoundTrips}
use dusk_blockchain.Block.Header
use dusk_blockchain.Block.Header.{Header, block_header-RoundTrips}
use dusk_blockchain.Block.Body.{Block, encode, decode, decode_body, decode_txs}

-- The header and the transactions fit, and there are not more than a count can say.
pub record IsWhole (b : Block) : Type 0 where
  pub header : Header.IsWellSized b.header
  pub few : length b.txs < 2 ^ 64
  pub txs : All IsWellFormed b.txs

-- The block without the identifiers that its transactions remember.
pub unhashed : Block → Block
unhashed b = record b { txs = map (with_id []) b.txs }

txs-RoundTrips :
    (txs : List Transaction)
    → All IsWellFormed txs
    → RoundTrips
        (write_each Transaction.encode txs)
        (read_times Transaction.decode (length txs))
        (map (with_id []) txs)
txs-RoundTrips txs h =
    RoundTrips-each_map Transaction.encode Transaction.decode (with_id []) txs
      (All-map transaction-RoundTrips txs h)

-- The transactions at the front of a reader are read, and nothing is left of it.
from_reader_lem :
    (txs : List Transaction) (h : All IsWellFormed txs) (rest : Bytes)
    → from_reader (length txs) ((txs-RoundTrips txs h).bytes ++ rest) ≡ ok (map (with_id []) txs) []
unfolding from_reader
from_reader_lem txs h rest = ap drained ((txs-RoundTrips txs h).reads rest)

body-RoundTrips :
    (b : Block) (v : IsWhole b) (rest : Bytes)
    → decode_body b.header (
        (var_int-RoundTrips (length b.txs) v.few).bytes
        ++ ((txs-RoundTrips b.txs v.txs).bytes ++ rest))
      ≡ ok (unhashed b) []
unfolding decode_body decode_txs unhashed
body-RoundTrips b v rest =
    >>=-ok read_var_int (decode_txs b.header)
      ((var_int-RoundTrips (length b.txs) v.few).reads ((txs-RoundTrips b.txs v.txs).bytes ++ rest))
    ∙ >>=-ok (from_reader (length b.txs)) (λ txs. pure (record { header = b.header; txs = txs }))
        (from_reader_lem b.txs v.txs rest)

-- A block of which every field fits, and no transaction ends in an empty byte string, is encoded, and
-- decoded again whatever follows it, its transactions from a bytes.Reader: the same block
-- but for the identifiers that its transactions remembered, and nothing is left of the reader.
pub block-RoundTrips :
    (b : Block)
    → IsWhole b
    → (bytes : Bytes) × ((buf : Bytes) → encode b buf ≡ ok tt (buf ++ bytes))
      × ((rest : Bytes) → decode (bytes ++ rest) ≡ ok (unhashed b) [])
unfolding encode decode
block-RoundTrips b v =
    let head = block_header-RoundTrips b.header v.header in
    let count = var_int-RoundTrips (length b.txs) v.few in
    let txs = txs-RoundTrips b.txs v.txs in
    (
      head.bytes ++ (count.bytes ++ txs.bytes),
      λ buf.
          >>-ok (Header.encode b.header) _ (head.writes buf)
          ∙ >>-ok (write_var_int (length b.txs)) _ (count.writes (buf ++ head.bytes))
          ∙ txs.writes ((buf ++ head.bytes) ++ count.bytes)
          ∙ ap (ok tt) (
              append_assoc (buf ++ head.bytes) count.bytes txs.bytes
              ∙ append_assoc buf head.bytes (count.bytes ++ txs.bytes)),
      λ rest.
          rw (append_assoc, append_assoc)
            (>>=-ok Header.decode decode_body (head.reads (count.bytes ++ (txs.bytes ++ rest)))
              ∙ body-RoundTrips b v rest),
    )
