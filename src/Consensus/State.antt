-- ===== src/Consensus/State.antt =====
-- pkg/core/consensus/state.go: the round and step that the consensus components share. An int is its
-- bit pattern of 64 bits, so a difference wraps as it does in the code.
use dusk_blockchain.Base.{ℕ, ◌+◌, ◌-◌, ◌%◌, ◌^◌, ◌<◌, ◌≡◌, ◌↔◌, arith, Bool, true, leb, ◌==◌}

pub record State : Type 0 where
  pub round : ℕ
  pub step : ℕ
  pub step_subscribers : ℕ

unfoldable pub new_state : State
new_state = record { round = 0; step = 1; step_subscribers = 0 }

-- A subscriber is known here by its being one more.
unfoldable pub subscribe_step : State → State
subscribe_step s = record s { step_subscribers = s.step_subscribers + 1 }

unfoldable pub update : State → ℕ → State
update s round = record s { round = round; step = 1 }

-- The step is a uint8. Each subscriber is sent one notice: the second result counts them.
unfoldable pub increment_step : State → State × ℕ
increment_step s = (record s { step = (s.step + 1) % 2 ^ 8 }, s.step_subscribers)

-- `int(a) - int(b)`.
unfoldable pub int_diff : ℕ → ℕ → ℕ
int_diff a b = (a + 2 ^ 64 - b) % 2 ^ 64

unfoldable pub cmp : State → ℕ → ℕ → ℕ × ℕ
unfolding int_diff
cmp s round step = (int_diff s.round round, int_diff s.step step)

-- The sign of such an int.
unfoldable pub is_negative : ℕ → Bool
is_negative d = leb (2 ^ 63) d

unfoldable pub is_zero : ℕ → Bool
is_zero d = d == 0

-- Below 2 ^ 63 the difference has the sign of the comparison.
pub int_diff_sign :
    (a b : ℕ)
    → a < 2 ^ 63
    → b < 2 ^ 63
    → ((is_negative (int_diff a b) ≡ true) ↔ (a < b)) × ((is_zero (int_diff a b) ≡ true) ↔ (a ≡ b))
unfolding is_negative is_zero int_diff
int_diff_sign a b ha hb =
    ((λ h. ground arith, λ h. ground arith), (λ h. ground arith, λ h. ground arith))
