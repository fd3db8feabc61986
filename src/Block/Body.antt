-- ===== src/Block/Body.antt =====
-- pkg/core/block/block.go: a header and its transactions.
pub mod RoundTrip
use dusk_blockchain.Base.{ℕ, ◌∙◌, List, [], ◌∷◌, ◌++◌, length, replicate, Option, none, some}
use dusk_blockchain.Encoding.Buffer.{Bytes, M, Outcome, ◌>>=◌, ◌>>◌, pure}
use dusk_blockchain.Encoding.Codec.{write_each}
use dusk_blockchain.Encoding.VarInt.{read_var_int, write_var_int}
use dusk_blockchain.Transactions.Transaction
use dusk_blockchain.Transactions.Transaction.{Transaction, from_reader}
use dusk_blockchain.Block.Certificate.{empty_certificate}
use dusk_blockchain.Block.Header
use dusk_blockchain.Block.Header.{Header}

pub record Block : Type 0 where
  pub header : Header
  pub txs : List Transaction

-- A Go header without values: nil slices, and a nil certificate, which stands as the empty one here.
unfoldable pub new_block : Block
unfolding empty_certificate
new_block = record {
  header = record {
    version = 0x00;
    height = 0;
    timestamp = 0;
    prev_block_hash = [];
    seed = [];
    tx_root = [];
    certificate = empty_certificate;
    hash = [];
  };
  txs = [];
}

unfoldable pub set_prev_block : Block → Header → Block
set_prev_block b prev_header = record b {
  header = record b.header { prev_block_hash = prev_header.hash };
}

unfoldable pub add_tx : Block → Transaction → Block
add_tx b tx = record b { txs = b.txs ++ (tx ∷ []) }

unfoldable pub encode : Block → M (Unit {0})
encode b = do
  Header.encode b.header
  write_var_int (length b.txs)
  write_each Transaction.encode b.txs

-- A reader that is drained of its transactions: what follows them is lost.
unfoldable pub decode_txs : Header → ℕ → M Block
decode_txs header l_txs = from_reader l_txs >>= λ txs. pure (record { header = header; txs = txs })

unfoldable pub decode_body : Header → M Block
decode_body header = read_var_int >>= decode_txs header

unfoldable pub decode : M Block
decode = Header.decode >>= decode_body
