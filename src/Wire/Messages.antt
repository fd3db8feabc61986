-- ===== src/Wire/Messages.antt =====
-- pkg/p2p/peer/peermsg: the getblocks and inv messages.
use dusk_blockchain.Base.{
  ℕ, ◌*◌, ltb, false, ◌^◌, ◌≤◌, ◌≡◌, refl, arith, subst, Bool, Bool-cases, inl, inr, true, ◌||◌,
  ◌==◌, if◌then◌else◌, List, [], ◌∷◌, ◌++◌, All, All-map, length,
}
use dusk_blockchain.Encoding.Buffer.{
  Bytes, M, ok, panicked, wrong_size, unsupported, ◌>>=◌, ◌>>◌, pure, fail, >>=-eq-ok, read_all-ok,
}
use dusk_blockchain.Encoding.Codec.{
  RoundTrips, RoundTrips-then, RoundTrips-bind, write_each, read_times, RoundTrips-each,
  read_times-All,
}
use dusk_blockchain.Encoding.Integers.{read_uint8, write_uint8}
use dusk_blockchain.Encoding.Integers.RoundTrip.{uint8-RoundTrips}
use dusk_blockchain.Encoding.VarInt.{read_var_int, write_var_int}
use dusk_blockchain.Encoding.VarInt.RoundTrip.{var_int-RoundTrips}
use dusk_blockchain.Encoding.MiscData.{read_256, write_256, read_256-RoundTrips}

-- A slice of items of so many bytes, made in full before the first is read: `make` panics on more than
-- the 2^48 bytes of the address space of a 64-bit platform. A slice header has 24 bytes, an InvVect 32.
unfoldable pub read_made_slice : {A : Type 0} → ℕ → M A → ℕ → M (List A)
read_made_slice size r n = if ltb (2 ^ 48) (n * size) then fail panicked else read_times r n

read_made_slice-few :
    {A : Type 0} (size : ℕ) (r : M A) (n : ℕ)
    → n * size ≤ 2 ^ 48
    → read_made_slice size r n ≡ read_times r n
unfolding read_made_slice
read_made_slice-few size r n h = let few : ltb (2 ^ 48) (n * size) ≡ false = ground arith in rw few

-- GetBlocks is its list of locators.
unfoldable pub encode_get_blocks : List Bytes → M (Unit {0})
encode_get_blocks locators = write_var_int (length locators) >> write_each write_256 locators

unfoldable pub decode_get_blocks : M (List Bytes)
decode_get_blocks = read_var_int >>= read_made_slice 24 read_256

pub record InvVect : Type 0 where
  pub type : ℕ
  pub hash : Bytes

-- The two supported types are 0, a mempool transaction, and 1, a block.
unfoldable pub supported_inv_type : ℕ → Bool
supported_inv_type t = t == 0 || t == 1

unfoldable pub encode_vect : InvVect → M (Unit {0})
unfolding supported_inv_type
encode_vect v =
    if supported_inv_type v.type
    then (write_uint8 v.type >> (if length v.hash == 32 then write_256 v.hash else fail wrong_size))
    else fail unsupported

unfoldable pub encode_inv : List InvVect → M (Unit {0})
encode_inv vects = write_var_int (length vects) >> write_each encode_vect vects

decode_hash : ℕ → M InvVect
unfolding supported_inv_type
decode_hash t =
    if supported_inv_type t
    then (read_256 >>= λ hash. pure (record { type = t; hash = hash }))
    else fail unsupported

unfoldable pub decode_vect : M InvVect
unfolding decode_hash
decode_vect = read_uint8 >>= decode_hash

unfoldable pub decode_inv : M (List InvVect)
decode_inv = read_var_int >>= read_made_slice 32 decode_vect

unfoldable pub add_item : List InvVect → ℕ → Bytes → List InvVect
add_item vects t hash = vects ++ (record { type = t; hash = hash } ∷ [])

-- A list of locators, each a hash of 32 bytes, is read back.
pub get_blocks-RoundTrips :
    (locators : List Bytes)
    → length locators * 24 ≤ 2 ^ 48
    → All (λ l. length l ≡ 32) locators
    → RoundTrips (encode_get_blocks locators) decode_get_blocks locators
unfolding encode_get_blocks decode_get_blocks
get_blocks-RoundTrips locators n h =
    RoundTrips-then (var_int-RoundTrips (length locators) (omega arith))
      (read_made_slice 24 read_256)
      (rw (read_made_slice-few 24 read_256 (length locators) n)
        (RoundTrips-each write_256 read_256 locators (All-map read_256-RoundTrips locators h)))

-- An item that the encoder takes.
abbrev pub IsInvVect : InvVect → Type 0
IsInvVect v = (v.type ≤ 1) × (length v.hash ≡ 32)

hash-RoundTrips :
    (v : InvVect)
    → supported_inv_type v.type ≡ true
    → length v.hash ≡ 32
    → RoundTrips (write_256 v.hash) (decode_hash v.type) v
unfolding decode_hash
hash-RoundTrips v fits h = rw fits (RoundTrips-bind (read_256-RoundTrips v.hash h) _ refl)

vect-RoundTrips : (v : InvVect) → IsInvVect v → RoundTrips (encode_vect v) decode_vect v
unfolding encode_vect decode_vect
vect-RoundTrips v (ht, hh) =
    let fits : supported_inv_type v.type ≡ true = unfold supported_inv_type in ground arith in
    let size : (length v.hash == 32) ≡ true = ground arith in
    rw (fits, size)
      (RoundTrips-then (uint8-RoundTrips v.type) decode_hash (hash-RoundTrips v fits hh))

-- An inventory of supported items is read back.
pub inv-RoundTrips :
    (vects : List InvVect)
    → length vects * 32 ≤ 2 ^ 48
    → All IsInvVect vects
    → RoundTrips (encode_inv vects) decode_inv vects
unfolding encode_inv decode_inv
inv-RoundTrips vects n h =
    RoundTrips-then (var_int-RoundTrips (length vects) (omega arith))
      (read_made_slice 32 decode_vect)
      (rw (read_made_slice-few 32 decode_vect (length vects) n)
        (RoundTrips-each encode_vect decode_vect vects (All-map vect-RoundTrips vects h)))

decode_hash-IsInvVect :
    (t : ℕ) (from : Bytes) (v : InvVect) (to : Bytes) → decode_hash t from ≡ ok v to → IsInvVect v
unfolding decode_hash read_256
decode_hash-IsInvVect t from v to e = elim (Bool-cases (supported_inv_type t)) [
  | inl fits ↦
      let e' = rw fits at e in
      let (hash, mid, got, last) = >>=-eq-ok read_256 _ from e' in
      let (_, len) = read_all-ok 32 from hash mid got in
      let small : t ≤ 1 = unfold supported_inv_type in ground arith in
      let built : record { type = t; hash = hash } ≡ v = cc in subst IsInvVect built (small, len)
  | inr odd ↦ let e' = rw odd at e in cc
]

decode_vect-IsInvVect : (v : InvVect) (from to : Bytes) → decode_vect from ≡ ok v to → IsInvVect v
unfolding decode_vect
decode_vect-IsInvVect v from to e =
    let (t, mid, _, e') = >>=-eq-ok read_uint8 decode_hash from e in
    decode_hash-IsInvVect t mid v to e'

-- Whatever a peer sends, an inventory that is decoded holds supported items only, with whole hashes.
pub decode_inv-IsInvVect :
    (buf : Bytes) (vects : List InvVect) (rest : Bytes)
    → decode_inv buf ≡ ok vects rest
    → All IsInvVect vects
unfolding decode_inv read_made_slice
decode_inv-IsInvVect buf vects rest e =
    let (n, mid, _, e') = >>=-eq-ok read_var_int (read_made_slice 32 decode_vect) buf e in
    (read_times-All IsInvVect decode_vect n mid vects rest decode_vect-IsInvVect (made n mid e')).0
  where
    made :
        (n : ℕ) (mid : Bytes)
        → read_made_slice 32 decode_vect n mid ≡ ok vects rest
        → read_times decode_vect n mid ≡ ok vects rest
    made n mid e = elim (Bool-cases (ltb (2 ^ 48) (n * 32))) [
      | inl large ↦ cc (rw (large, read_made_slice) at e)
      | inr few ↦ rw (few, read_made_slice) at e
    ]
