-- ===== src/Tests/Reduction.antt =====
-- Concrete votes of pkg/core/consensus/reduction, and one on its way.
use dusk_blockchain.Base.{
  ℕ, ◌≡◌, refl, ap, arith, true, [], ◌∷◌, some, replicate, length-replicate, suc,
}
use dusk_blockchain.Encoding.Buffer.{Bytes, ok}
use dusk_blockchain.Crypto.Bls.{unmarshal_pk}
use dusk_blockchain.Crypto.Bls.Aggregation.{key_of}
use dusk_blockchain.Consensus.Header.{marshal_signable_vote}
use dusk_blockchain.Consensus.Keys.{Ed25519, Keys, IsKeyPair, Compresses, validate}
use dusk_blockchain.Reduction.Event.{Reduction, IsVote, deserialize}
use dusk_blockchain.Reduction.Handler.{verify_vote, sign_buffer}
use dusk_blockchain.Reduction.Handler.Accepted.{vote_header, sign_buffer-accepted}
use dusk_blockchain.Tests.Crypto.{line, line-Bilinear, first}

-- A signature scheme whose signatures all verify.
abbrev pub constant : Ed25519
constant = record { sign = λ secret body. replicate 64 9; verify = λ key body sig. true }

abbrev pub keys : Keys line
keys = record {
  bls_pub_key = key_of line first;
  bls_pub_key_bytes = 15 ∷ [];
  bls_secret_key = first;
  ed_pub_key_bytes = replicate 32 1;
  ed_secret_key = [];
}

pub keys-IsKeyPair : IsKeyPair line constant keys
unfolding unmarshal_pk key_of
keys-IsKeyPair = record {
  matches = refl;
  unmarshals = refl;
  key_size = ground arith;
  ed_key_size = length-replicate {A = ℕ} 32 1;
  ed_size = λ body. length-replicate {A = ℕ} 64 9;
  ed_verifies = λ body. refl;
}

pub line-Compresses : Compresses line
line-Compresses = record {
  size = λ p. ap suc (length-replicate {A = ℕ} 32 0);
  decompresses = λ p. refl;
}

abbrev hash : Bytes
hash = replicate 32 4

sign_buffer-accepted_example :
    (buf out body : Bytes) × (e : Reduction) × (marshal_signable_vote (vote_header [] 7 2 hash) []
      ≡ ok tt buf)
    × (sign_buffer line constant keys buf ≡ some out)
    × (validate constant out ≡ some body)
    × (deserialize body ≡ ok e [])
    × (e.header ≡ vote_header (15 ∷ []) 7 2 hash)
    × (verify_vote line e ≡ true)
sign_buffer-accepted_example =
    sign_buffer-accepted line line-Bilinear line-Compresses constant keys keys-IsKeyPair 7 2 hash
      (ground arith) (length-replicate {A = ℕ} 32 4)

abbrev pub vote : Reduction
vote = record { header = vote_header (15 ∷ []) 7 2 hash; signed_hash = replicate 33 8 }

pub vote-IsVote : IsVote vote
vote-IsVote = record {
  fits = record { key = ground arith; round = ground arith; hash = length-replicate {A = ℕ} 32 4 };
  size = length-replicate {A = ℕ} 33 8;
}
