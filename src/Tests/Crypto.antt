-- ===== src/Tests/Crypto.antt =====
-- Concrete runs of pkg/crypto, over a curve of numbers.
use dusk_blockchain.Base.{
  ℕ, ◌+◌, ◌*◌, ◌≡◌, refl, ap, ◌∙◌, true, [], ◌∷◌, Option, none, some, replicate,
}
use native.Mathlib.Nat.{mul-add, add-mul, mul_assoc, mul_comm, mul_right_comm}
use dusk_blockchain.Encoding.Buffer.{Bytes, equal}
use dusk_blockchain.Crypto.Bls.{
  Curve, SecretKey, Apk, verified, aggregate_apk, verify, sign, unsafe_batch, UnsafeSignature,
  verify_unsafe_batch, distinct, distinct_from, mem_bytes,
}
use dusk_blockchain.Crypto.Bls.Aggregation.{Bilinear, key_of, co_sign, co_sign-verifies}
use dusk_blockchain.Crypto.Bls.Batch.{Signer, signature_of, unsafe_batch-verifies}

abbrev from_byte : Bytes → Option ℕ
from_byte [] = none
from_byte (b ∷ bs) = some b

abbrev pub line : Curve
line = record {
  G1 = ℕ;
  G2 = ℕ;
  GT = ℕ;
  add1 = λ a b. a + b;
  scalar_mult1 = λ a k. a * k;
  scalar_base_mult1 = λ k. k;
  add2 = λ a b. a + b;
  scalar_mult2 = λ a k. a * k;
  add_t = λ a b. a + b;
  pair = λ a b. a * b;
  marshal1 = λ a. a ∷ [];
  unmarshal1 = from_byte;
  compress1 = λ a. a ∷ replicate 32 0;
  decompress1 = from_byte;
  marshal2 = λ a. a ∷ [];
  unmarshal2 = from_byte;
  marshal_t = λ a. a ∷ [];
  sum256 = λ b. b;
  g2_base = 3;
}

pub line-Bilinear : Bilinear line
line-Bilinear = record {
  pair_add1 = λ a b q. add-mul a b q;
  pair_add2 = λ a p q. mul-add a p q;
  pair_scalar = λ a k q. mul_assoc a k q ∙ ap (λ m. a * m) (mul_comm k q);
  scalar_swap = λ q j k. mul_right_comm q j k;
}

abbrev message : Bytes
message = 7 ∷ []

abbrev pub first : SecretKey
first = record { x = 5 }

abbrev pub second : SecretKey
second = record { x = 11 }

co_sign-verifies_example :
    (apk : Apk line) × (aggregate_apk line (key_of line first ∷ key_of line second ∷ []) ≡ some apk)
    × (verify line apk message
          (co_sign line message (sign line first (key_of line first) message) (second ∷ []))
        ≡ true)
co_sign-verifies_example = co_sign-verifies line line-Bilinear message first (second ∷ [])

abbrev first_signer : Signer
first_signer = record { secret = first; message = message }

abbrev second_signer : Signer
second_signer = record { secret = second; message = 8 ∷ [] }

messages_distinct : distinct line.sum256 (message ∷ (8 ∷ []) ∷ []) ≡ true
unfolding distinct distinct_from mem_bytes equal
messages_distinct = refl

unsafe_batch-verifies_example :
    (sum : UnsafeSignature line) × (unsafe_batch line
        (signature_of line first_signer ∷ signature_of line second_signer ∷ [])
      ≡ some sum)
    × (verify_unsafe_batch line
          (key_of line first ∷ key_of line second ∷ [])
          (message ∷ (8 ∷ []) ∷ [])
          sum
        ≡ verified)
unsafe_batch-verifies_example =
    unsafe_batch-verifies line line-Bilinear first_signer (second_signer ∷ []) messages_distinct
