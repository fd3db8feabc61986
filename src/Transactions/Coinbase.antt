-- ===== src/Transactions/Coinbase.antt =====
-- pkg/core/transactions/coinbasetx.go: the reward of a block's generator.
use dusk_blockchain.Base.{true, false, ℕ, ◌^◌, ◌≤◌, ◌≡◌, refl, All, List, [], ◌∷◌, ◌++◌, length}
use dusk_blockchain.Encoding.Buffer.{Bytes, M, ◌>>=◌, ◌>>◌, pure}
use dusk_blockchain.Encoding.Tagged.{Tagged, tag-Tagged}
use dusk_blockchain.Encoding.Integers.{read_uint8, write_uint8}
use dusk_blockchain.Encoding.Reader.{
  Items, IsLast, filled, Filled-then, Filled-bind, var_bytes-Filled, reader_var_bytes, read_256_eof,
}
use dusk_blockchain.Encoding.MiscData.{read_256, write_256, read_256-RoundTrips}
use dusk_blockchain.Encoding.VarData.{write_var_bytes}
use dusk_blockchain.Transactions.Slices.{max_pointers, read_slice, write_slice, slice-Filled}
use dusk_blockchain.Transactions.Output
use dusk_blockchain.Transactions.Output.{Output, output-Filled}
use dusk_blockchain.Transactions.Standard.{Standard}

pub record Coinbase : Type 0 where
  pub tx_type : ℕ
  pub tx_id : Bytes
  pub r : Bytes
  pub score : Bytes
  pub proof : Bytes
  pub rewards : List Output

-- The type is left at zero, which is that of a coinbase.
unfoldable pub new_coinbase : Bytes → Bytes → Bytes → Coinbase
new_coinbase proof score r = record {
  tx_type = 0;
  tx_id = [];
  r = r;
  score = score;
  proof = proof;
  rewards = [];
}

-- The output's mask is replaced, also for the caller that holds it.
unfoldable pub add_reward : Coinbase → Output → Coinbase
add_reward c output = record c {
  rewards = c.rewards ++ (record output { encrypted_mask = 0 ∷ [] } ∷ []);
}

unfoldable pub encode : Coinbase → M (Unit {0})
encode c = do
  write_uint8 c.tx_type
  write_256 c.r
  write_256 c.score
  write_var_bytes c.proof
  write_slice Output.encode c.rewards

unfoldable pub decode : M Coinbase
decode = do
  tx_type ← read_uint8
  r ← read_256
  score ← read_256
  proof ← reader_var_bytes
  rewards ← read_slice Output.decode
  pure (record {
    tx_type = tx_type;
    tx_id = [];
    r = r;
    score = score;
    proof = proof;
    rewards = rewards;
  })

-- The other fields of the struct are left at their zero values.
unfoldable pub standard_tx : Coinbase → Standard
standard_tx c = record {
  tx_type = 0;
  r = c.r;
  version = 0;
  tx_id = [];
  inputs = [];
  outputs = c.rewards;
  fee = 0;
  range_proof = [];
}

pub record IsWellSized (c : Coinbase) : Type 0 where
  pub r : length c.r ≡ 32
  pub score : length c.score ≡ 32
  pub proof : length c.proof ≤ 2 ^ 48
  pub few_rewards : length c.rewards ≤ max_pointers
  pub rewards : All Output.IsWellSized c.rewards

-- The mask of the last reward is not empty, the way AddReward leaves it.
unfoldable pub IsMasked : List Output → Type 0
IsMasked [] = Unit {0}
IsMasked (o ∷ []) = IsLast true o.encrypted_mask
IsMasked (o ∷ p ∷ os) = IsMasked (p ∷ os)

rewards-Items :
    (os : List Output)
    → All Output.IsWellSized os
    → IsMasked os
    → Items true Output.encode Output.decode os
unfolding Items IsMasked
rewards-Items [] v m = tt
rewards-Items (o ∷ []) (v, vs) m = output-Filled true o v m
rewards-Items (o ∷ p ∷ os) (v, vs) m = (output-Filled false o v tt, rewards-Items (p ∷ os) vs m)

pub coinbase-Tagged :
    (c : Coinbase)
    → IsWellSized c
    → IsMasked c.rewards
    → Tagged true c.tx_type (encode c) decode (record c { tx_id = [] })
unfolding encode decode
coinbase-Tagged c v masked = tag-Tagged c.tx_type _ (
    Filled-then (filled false (read_256-RoundTrips c.r v.r) read_256_eof) _ (
      Filled-then (filled false (read_256-RoundTrips c.score v.score) read_256_eof) _ (
        Filled-then (var_bytes-Filled false c.proof v.proof tt) _ (
          Filled-bind
            (slice-Filled true Output.encode Output.decode c.rewards v.few_rewards
              (rewards-Items c.rewards v.rewards masked))
            _ refl))))
