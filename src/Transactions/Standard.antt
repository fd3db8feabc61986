-- ===== src/Transactions/Standard.antt =====
-- pkg/core/transactions/standardtx.go and type.go: the standard transaction, which all the others
-- but the coinbase contain.
use dusk_blockchain.Base.{
  Bool, false, ℕ, ◌^◌, ◌<◌, ◌≤◌, ◌≡◌, refl, All, All-map, List, [], ◌∷◌, ◌++◌, length,
}
use dusk_blockchain.Encoding.Buffer.{Bytes, M, ◌>>=◌, ◌>>◌, pure}
use dusk_blockchain.Encoding.Tagged.{Tagged, tag-Tagged}
use dusk_blockchain.Encoding.Integers.{
  little_endian, read_uint8, read_uint64, write_uint8, write_uint64,
}
use dusk_blockchain.Encoding.Integers.RoundTrip.{uint8-RoundTrips, uint64-RoundTrips}
use dusk_blockchain.Encoding.Reader.{
  Items-inside, IsLast, filled, Filled-then, Filled-bind, var_bytes-Filled, reader_var_bytes,
  read_256_eof, read_uint8_eof, read_uint64_eof,
}
use dusk_blockchain.Encoding.MiscData.{read_256, write_256, read_256-RoundTrips}
use dusk_blockchain.Encoding.VarData.{write_var_bytes}
use dusk_blockchain.Transactions.Slices.{max_pointers, read_slice, write_slice, slice-Filled}
use dusk_blockchain.Transactions.Input
use dusk_blockchain.Transactions.Input.{Input, input-Filled}
use dusk_blockchain.Transactions.Output
use dusk_blockchain.Transactions.Output.{Output, output-Filled}

-- The identifiers of the transaction types, a uint8.
abbrev pub coinbase_type : ℕ
coinbase_type = 0x00

abbrev pub bid_type : ℕ
bid_type = 0x01

abbrev pub stake_type : ℕ
stake_type = 0x02

abbrev pub standard_type : ℕ
standard_type = 0x03

abbrev pub timelock_type : ℕ
timelock_type = 0x04

-- `tx_id` is empty until the hash is first asked for.
pub record Standard : Type 0 where
  pub tx_type : ℕ
  pub r : Bytes
  pub version : ℕ
  pub tx_id : Bytes
  pub inputs : List Input
  pub outputs : List Output
  pub fee : ℕ
  pub range_proof : Bytes

unfoldable pub new_standard : ℕ → ℕ → Bytes → Standard
new_standard ver fee r = record {
  tx_type = standard_type;
  r = r;
  version = ver;
  tx_id = [];
  inputs = [];
  outputs = [];
  fee = fee;
  range_proof = [];
}

unfoldable pub add_input : Standard → Input → Standard
add_input s input = record s { inputs = s.inputs ++ (input ∷ []) }

unfoldable pub add_output : Standard → Output → Standard
add_output s output = record s { outputs = s.outputs ++ (output ∷ []) }

unfoldable pub encode : Standard → M (Unit {0})
encode s = do
  write_uint8 s.tx_type
  write_256 s.r
  write_uint8 s.version
  write_slice Input.encode s.inputs
  write_slice Output.encode s.outputs
  write_uint64 little_endian s.fee
  write_var_bytes s.range_proof

-- Into a new struct, the way every caller does.
unfoldable pub decode : M Standard
decode = do
  tx_type ← read_uint8
  r ← read_256
  version ← read_uint8
  inputs ← read_slice Input.decode
  outputs ← read_slice Output.decode
  fee ← read_uint64 little_endian
  range_proof ← reader_var_bytes
  pure (record {
    tx_type = tx_type;
    r = r;
    version = version;
    tx_id = [];
    inputs = inputs;
    outputs = outputs;
    fee = fee;
    range_proof = range_proof;
  })

pub record IsWellSized (s : Standard) : Type 0 where
  pub r : length s.r ≡ 32
  pub few_inputs : length s.inputs ≤ max_pointers
  pub inputs : All Input.IsWellSized s.inputs
  pub few_outputs : length s.outputs ≤ max_pointers
  pub outputs : All Output.IsWellSized s.outputs
  pub fee : s.fee < 2 ^ 64
  pub range_proof : length s.range_proof ≤ 2 ^ 48

-- What is read back has no identifier yet.
abbrev pub unhashed : Standard → Standard
unhashed s = record s { tx_id = [] }

pub standard-Tagged :
    (at_end : Bool) (s : Standard)
    → IsWellSized s
    → IsLast at_end s.range_proof
    → Tagged at_end s.tx_type (encode s) decode (unhashed s)
unfolding encode decode
standard-Tagged at_end s v last = tag-Tagged s.tx_type _ (
    Filled-then (filled false (read_256-RoundTrips s.r v.r) read_256_eof) _ (
      Filled-then (filled false (uint8-RoundTrips s.version) read_uint8_eof) _ (
        Filled-then
          (slice-Filled false Input.encode Input.decode s.inputs v.few_inputs (
            Items-inside Input.encode Input.decode s.inputs
              (All-map input-Filled s.inputs v.inputs)))
          _
          (Filled-then
            (slice-Filled false Output.encode Output.decode s.outputs v.few_outputs (
              Items-inside Output.encode Output.decode s.outputs
                (All-map (λ o w. output-Filled false o w tt) s.outputs v.outputs)))
            _
            (Filled-then
              (filled false (uint64-RoundTrips little_endian s.fee v.fee) read_uint64_eof) _
              (Filled-bind (var_bytes-Filled at_end s.range_proof v.range_proof last) _ refl))))))
