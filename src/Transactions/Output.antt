-- ===== src/Transactions/Output.antt =====
-- pkg/core/transactions/output.go: what a transaction creates.
use dusk_blockchain.Base.{
  false, ◌^◌, ◌≤◌, ◌≡◌, ◌↔◌, refl, arith, Bool, true, ◌&&◌, ◌==◌, if◌then◌else◌, length, [], Option,
  none, some,
}
use dusk_blockchain.Encoding.Buffer.{Bytes, M, ◌>>=◌, ◌>>◌, pure, equal, equal→eq, equal_refl}
use dusk_blockchain.Encoding.Reader.{
  IsLast, Filled, filled, Filled-then, Filled-bind, var_bytes-Filled, reader_var_bytes,
  read_256_eof,
}
use dusk_blockchain.Encoding.MiscData.{read_256, write_256, read_256-RoundTrips}
use dusk_blockchain.Encoding.VarData.{write_var_bytes}

pub record Output : Type 0 where
  pub commitment : Bytes
  pub dest_key : Bytes
  pub encrypted_amount : Bytes
  pub encrypted_mask : Bytes

-- `none` is the error; the two encrypted fields are nil.
unfoldable pub new_output : Bytes → Bytes → Option Output
new_output comm dest =
    if length dest == 32
    then some
        (record { commitment = comm; dest_key = dest; encrypted_amount = []; encrypted_mask = [] })
    else none

unfoldable pub encode : Output → M (Unit {0})
encode o = do
  write_256 o.commitment
  write_256 o.dest_key
  write_var_bytes o.encrypted_amount
  write_var_bytes o.encrypted_mask

unfoldable pub decode : M Output
decode = do
  commitment ← read_256
  dest_key ← read_256
  encrypted_amount ← reader_var_bytes
  encrypted_mask ← reader_var_bytes
  pure (record {
    commitment = commitment;
    dest_key = dest_key;
    encrypted_amount = encrypted_amount;
    encrypted_mask = encrypted_mask;
  })

-- Neither side is nil: a slice of outputs holds none.
unfoldable pub equals : Output → Output → Bool
equals o out =
    equal o.commitment out.commitment
    && equal o.dest_key out.dest_key
    && equal o.encrypted_amount out.encrypted_amount
    && equal o.encrypted_mask out.encrypted_mask

pub record IsWellSized (o : Output) : Type 0 where
  pub commitment : length o.commitment ≡ 32
  pub dest_key : length o.dest_key ≡ 32
  pub encrypted_amount : length o.encrypted_amount ≤ 2 ^ 48
  pub encrypted_mask : length o.encrypted_mask ≤ 2 ^ 48

pub output-Filled :
    (at_end : Bool) (o : Output)
    → IsWellSized o
    → IsLast at_end o.encrypted_mask
    → Filled at_end (encode o) decode o
unfolding encode decode
output-Filled at_end o v last =
    Filled-then (filled false (read_256-RoundTrips o.commitment v.commitment) read_256_eof) _ (
      Filled-then (filled false (read_256-RoundTrips o.dest_key v.dest_key) read_256_eof) _ (
        Filled-then (var_bytes-Filled false o.encrypted_amount v.encrypted_amount tt) _
          (Filled-bind (var_bytes-Filled at_end o.encrypted_mask v.encrypted_mask last) _ refl)))

-- `Equals` decides equality.
pub equals_iff : (o out : Output) → (equals o out ≡ true) ↔ (o ≡ out)
unfolding equals
equals_iff o out = (
  λ h. ground (
    arith,
    equal→eq o.commitment out.commitment,
    equal→eq o.dest_key out.dest_key,
    equal→eq o.encrypted_amount out.encrypted_amount,
    equal→eq o.encrypted_mask out.encrypted_mask,
  ),
  λ e. rw (← e) (
      ground (
        arith,
        equal_refl o.commitment,
        equal_refl o.dest_key,
        equal_refl o.encrypted_amount,
        equal_refl o.encrypted_mask,
      )),
)
