-- ===== src/Crypto/Bls.antt =====
-- pkg/crypto/bls/bls.go: BLS signatures whose keys are weighted by their hashes, so that they can be
-- added up. The curve of the bn256 library and SHA3-256 are a parameter. PerformHash passes on the
-- error of the hash's Write, which SHA3 never returns, so the branches on that error are left out.
pub mod Aggregation
pub mod Batch
use dusk_blockchain.Base.{
  ℕ, ◌==◌, Bool, true, false, not, ◌&&◌, ◌||◌, if◌then◌else◌, List, [], ◌∷◌, Option, none, some,
  length, map,
}
use dusk_blockchain.Base.Options.{◌>>=◌}
use dusk_blockchain.Encoding.Buffer.{Bytes, equal}
use dusk_blockchain.SortedSet.{set_bytes}

-- What bls.go uses of bn256 and of the hash, and the base point that it decodes when it starts.
pub record Curve : Type 1 where
  pub G1 : Type 0
  pub G2 : Type 0
  pub GT : Type 0
  pub add1 : G1 → G1 → G1
  pub scalar_mult1 : G1 → ℕ → G1
  pub scalar_base_mult1 : ℕ → G1
  pub add2 : G2 → G2 → G2
  pub scalar_mult2 : G2 → ℕ → G2
  pub add_t : GT → GT → GT
  pub pair : G1 → G2 → GT
  pub marshal1 : G1 → Bytes
  pub unmarshal1 : Bytes → Option G1
  pub compress1 : G1 → Bytes
  pub decompress1 : Bytes → Option G1
  pub marshal2 : G2 → Bytes
  pub unmarshal2 : Bytes → Option G2
  pub marshal_t : GT → Bytes
  pub sum256 : Bytes → Bytes
  pub g2_base : G2

pub record SecretKey : Type 0 where
  pub x : ℕ

-- What VerifyBatch and its like do: return nil, return an error, or panic.
pub data Verdict : Type 0 where
  verified refused panics : Verdict

unfoldable pub mem_bytes : Bytes → List Bytes → Bool
mem_bytes h [] = false
mem_bytes h (k ∷ ks) = equal h k || mem_bytes h ks

-- The hashes that distinct has met are its map.
unfoldable pub distinct_from : (Bytes → Bytes) → List Bytes → List Bytes → Bool
distinct_from sum met [] = true
distinct_from sum met (msg ∷ msgs) =
    if mem_bytes (sum msg) met then false else distinct_from sum (sum msg ∷ met) msgs

unfoldable pub distinct : (Bytes → Bytes) → List Bytes → Bool
distinct sum msgs = distinct_from sum [] msgs

module _ (c : Curve) where
  open c use {
    G1, G2, GT, add1, scalar_mult1, scalar_base_mult1, add2, scalar_mult2, add_t, pair, marshal1,
    unmarshal1, compress1, decompress1, marshal2, unmarshal2, marshal_t, sum256, g2_base,
  }

  pub record PublicKey : Type 0 where
    pub gx : G2

  pub record Apk : Type 0 where
    pub public_key : PublicKey

  pub record Signature : Type 0 where
    pub e : G1

  pub record UnsafeSignature : Type 0 where
    pub e : G1

  unfoldable pub marshal_pk : PublicKey → Bytes
  marshal_pk pk = marshal2 pk.gx

  unfoldable pub unmarshal_pk : Bytes → Option PublicKey
  unmarshal_pk b = do gx ← unmarshal2 b; some (record { gx = gx })

  unfoldable pub aggregate_pk : PublicKey → PublicKey → PublicKey
  aggregate_pk pk pp = record { gx = add2 pk.gx pp.gx }

  unfoldable pub h0 : Bytes → G1
  h0 msg = scalar_base_mult1 (set_bytes (sum256 msg))

  unfoldable pub h1 : PublicKey → ℕ
  h1 pk = set_bytes (sum256 (marshal_pk pk))

  unfoldable pub pkt : PublicKey → G2
  pkt pk = scalar_mult2 pk.gx (h1 pk)

  unfoldable pub new_apk : PublicKey → Apk
  new_apk pk = record { public_key = record { gx = pkt pk } }

  unfoldable pub unmarshal_apk : Bytes → Option Apk
  unmarshal_apk b = do pk ← unmarshal_pk b; some (record { public_key = pk })

  unfoldable pub apk_aggregate : Apk → PublicKey → Apk
  apk_aggregate apk pk = record { public_key = record { gx = add2 apk.public_key.gx (pkt pk) } }

  unfoldable pub apk_aggregate_bytes : Apk → Bytes → Option Apk
  apk_aggregate_bytes apk b = do pk ← unmarshal_pk b; some (apk_aggregate apk pk)

  -- The loop of AggregateApk after the first key.
  unfoldable pub aggregate_rest : Apk → List PublicKey → Apk
  aggregate_rest apk [] = apk
  aggregate_rest apk (pk ∷ pks) = aggregate_rest (apk_aggregate apk pk) pks

  -- `none` is the nil that no keys give.
  unfoldable pub aggregate_apk : List PublicKey → Option Apk
  aggregate_apk [] = none
  aggregate_apk (pk ∷ pks) = some (aggregate_rest (new_apk pk) pks)

  unfoldable pub unsafe_sign : SecretKey → Bytes → UnsafeSignature
  unsafe_sign key msg = record { e = scalar_mult1 (h0 msg) key.x }

  unfoldable pub apk_sig_wrap : PublicKey → UnsafeSignature → Signature
  apk_sig_wrap pk signature = record { e = scalar_mult1 signature.e (h1 pk) }

  unfoldable pub sign : SecretKey → PublicKey → Bytes → Signature
  sign sk pk msg = apk_sig_wrap pk (unsafe_sign sk msg)

  unfoldable pub aggregate : Signature → Signature → Signature
  aggregate sigma other = record { e = add1 sigma.e other.e }

  unfoldable pub add_signature : Signature → PublicKey → UnsafeSignature → Signature
  add_signature sigma pk sig = aggregate sigma (apk_sig_wrap pk sig)

  unfoldable pub compress : Signature → Bytes
  compress sigma = compress1 sigma.e

  unfoldable pub decompress : Bytes → Option Signature
  decompress x = do e ← decompress1 x; some (record { e = e })

  unfoldable pub marshal_signature : Signature → Bytes
  marshal_signature sigma = marshal1 sigma.e

  -- A signature of 33 bytes is a compressed one.
  unfoldable pub unmarshal_signature : Bytes → Option Signature
  unmarshal_signature msg = do
    e ← (if length msg == 33 then decompress1 msg else unmarshal1 msg)
    some (record { e = e })

  unfoldable pub aggregate_bytes : Signature → Bytes → Option Signature
  aggregate_bytes sigma other = do sig ← unmarshal_signature other; some (aggregate sigma sig)

  -- Whether the pairings are equal, as bytes.
  unfoldable pub verify_points : G2 → Bytes → G1 → Bool
  verify_points pk msg sigma = equal (marshal_t (pair (h0 msg) pk)) (marshal_t (pair sigma g2_base))

  unfoldable pub verify : Apk → Bytes → Signature → Bool
  verify apk msg sigma = verify_points apk.public_key.gx msg sigma.e

  unfoldable pub verify_unsafe : PublicKey → Bytes → UnsafeSignature → Bool
  verify_unsafe pkey msg signature = verify_points pkey.gx msg signature.e

  unfoldable pub unsafe_aggregate : UnsafeSignature → UnsafeSignature → UnsafeSignature
  unsafe_aggregate one other = record { e = add1 one.e other.e }

  -- The loop of UnsafeBatch after the first signature.
  unfoldable pub unsafe_rest : UnsafeSignature → List UnsafeSignature → UnsafeSignature
  unsafe_rest sum [] = sum
  unsafe_rest sum (sig ∷ sigs) = unsafe_rest (unsafe_aggregate sum sig) sigs

  unfoldable pub unsafe_batch : List UnsafeSignature → Option UnsafeSignature
  unsafe_batch [] = none
  unsafe_batch (sig ∷ sigs) = some (unsafe_rest sig sigs)

  -- The loop of verifyBatch after the first message; `none` is an index out of range.
  unfoldable pub pair_rest : GT → List G2 → List Bytes → Option GT
  pair_rest acc pks [] = some acc
  pair_rest acc [] (msg ∷ msgs) = none
  pair_rest acc (pk ∷ pks) (msg ∷ msgs) = pair_rest (add_t acc (pair (h0 msg) pk)) pks msgs

  -- No messages leave a nil sum, and a message without a key is out of range.
  unfoldable pub pair_all : List G2 → List Bytes → Option GT
  pair_all pks [] = none
  pair_all [] (msg ∷ msgs) = none
  pair_all (pk ∷ pks) (msg ∷ msgs) = pair_rest (pair (h0 msg) pk) pks msgs

  unfoldable pub verify_batch_points : List G2 → List Bytes → G1 → Bool → Verdict
  verify_batch_points pkeys msg_list sig allow_distinct =
      if not allow_distinct && not (distinct sum256 msg_list)
      then refused
      else elim (pair_all pkeys msg_list) [
        | none ↦ panics
        | some pairs ↦
            if equal (marshal_t (pair sig g2_base)) (marshal_t pairs) then verified else refused
      ]

  unfoldable pub verify_unsafe_batch : List PublicKey → List Bytes → UnsafeSignature → Verdict
  verify_unsafe_batch pkeys msg_list signature =
      verify_batch_points (map (λ pk. pk.gx) pkeys) msg_list signature.e false

  unfoldable pub verify_batch : List Apk → List Bytes → Signature → Verdict
  verify_batch apks msgs sigma =
      if length msgs == length apks
      then verify_batch_points (map (λ apk. apk.public_key.gx) apks) msgs sigma.e false
      else refused

  unfoldable pub verify_compressed : List G2 → List Bytes → Bytes → Bool → Verdict
  verify_compressed pks msg_list compressed_sig allow_distinct = elim (decompress1 compressed_sig) [
    | none ↦ refused
    | some sig ↦ verify_batch_points pks msg_list sig allow_distinct
  ]
