-- ===== src/Transactions/Input.antt =====
-- pkg/core/transactions/input.go: what a transaction spends.
use dusk_blockchain.Base.{
  false, ◌^◌, ◌≤◌, ◌≡◌, ◌↔◌, refl, arith, Bool, true, ◌&&◌, ◌==◌, not, ◌||◌, if◌then◌else◌, length,
  Option, none, some,
}
use dusk_blockchain.Encoding.Buffer.{Bytes, M, ◌>>=◌, ◌>>◌, pure, equal, equal→eq, equal_refl}
use dusk_blockchain.Encoding.Reader.{
  Filled, filled, Filled-then, Filled-bind, var_bytes-Filled, reader_var_bytes, read_256_eof,
}
use dusk_blockchain.Encoding.MiscData.{read_256, write_256, read_256-RoundTrips}
use dusk_blockchain.Encoding.VarData.{write_var_bytes}

pub record Input : Type 0 where
  pub key_image : Bytes
  pub pub_key : Bytes
  pub pseudo_commitment : Bytes
  pub signature : Bytes

-- `none` is the error.
unfoldable pub new_input : Bytes → Bytes → Bytes → Bytes → Option Input
new_input key_image pub_key pseudo_comm sig =
    if not (length key_image == 32) || not (length pub_key == 32) || not (length pseudo_comm == 32)
    then none
    else some (record {
      key_image = key_image;
      pub_key = pub_key;
      pseudo_commitment = pseudo_comm;
      signature = sig;
    })

unfoldable pub encode : Input → M (Unit {0})
encode i = do
  write_256 i.key_image
  write_256 i.pub_key
  write_256 i.pseudo_commitment
  write_var_bytes i.signature

unfoldable pub decode : M Input
decode = do
  key_image ← read_256
  pub_key ← read_256
  pseudo_commitment ← read_256
  signature ← reader_var_bytes
  pure (record {
    key_image = key_image;
    pub_key = pub_key;
    pseudo_commitment = pseudo_commitment;
    signature = signature;
  })

-- Neither side is nil: a slice of inputs holds none.
unfoldable pub equals : Input → Input → Bool
equals i other =
    equal i.key_image other.key_image
    && equal i.pub_key other.pub_key
    && equal i.pseudo_commitment other.pseudo_commitment
    && equal i.signature other.signature

pub record IsWellSized (i : Input) : Type 0 where
  pub key_image : length i.key_image ≡ 32
  pub pub_key : length i.pub_key ≡ 32
  pub pseudo_commitment : length i.pseudo_commitment ≡ 32
  pub signature : length i.signature ≤ 2 ^ 48

-- An input that the constructor built is read back.
pub new_input-IsWellSized :
    (key_image pub_key pseudo_comm sig : Bytes) (i : Input)
    → length sig ≤ 2 ^ 48
    → new_input key_image pub_key pseudo_comm sig ≡ some i
    → IsWellSized i
unfolding new_input
new_input-IsWellSized key_image pub_key pseudo_comm sig i h e = ground arith

pub input-Filled : (i : Input) → IsWellSized i → Filled false (encode i) decode i
unfolding encode decode
input-Filled i v =
    Filled-then (filled false (read_256-RoundTrips i.key_image v.key_image) read_256_eof) _ (
      Filled-then (filled false (read_256-RoundTrips i.pub_key v.pub_key) read_256_eof) _ (
        Filled-then
          (filled false (read_256-RoundTrips i.pseudo_commitment v.pseudo_commitment) read_256_eof)
          _ (Filled-bind (var_bytes-Filled false i.signature v.signature tt) _ refl)))

-- `Equals` decides equality.
pub equals_iff : (i other : Input) → (equals i other ≡ true) ↔ (i ≡ other)
unfolding equals
equals_iff i other = (
  λ h. ground (
    arith,
    equal→eq i.key_image other.key_image,
    equal→eq i.pub_key other.pub_key,
    equal→eq i.pseudo_commitment other.pseudo_commitment,
    equal→eq i.signature other.signature,
  ),
  λ e. rw (← e) (
      ground (
        arith,
        equal_refl i.key_image,
        equal_refl i.pub_key,
        equal_refl i.pseudo_commitment,
        equal_refl i.signature,
      )),
)
