-- ===== src/Consensus/Timer.antt =====
-- pkg/core/consensus/timer.go: the time-out of a step, which grows while steps fail. A Duration is the
-- bit pattern of an int64, in nanoseconds; TimeOutChan is not modelled.
use Prim.Native.Nat.{bit_xor}
use dusk_blockchain.Base.{
  ℕ, ◌+◌, ◌*◌, ◌%◌, ◌^◌, ◌<◌, ◌≤◌, ◌≡◌, refl, arith, Bool, true, ltb, if◌then◌else◌, List, [], ◌∷◌,
  Bool-cases, inl, inr,
}
use dusk_blockchain.Base.Bits.{bit_xor_le}

pub record Timer : Type 0 where
  pub time_out : ℕ
  pub base_time_out : ℕ

unfoldable pub new_timer : ℕ → Timer
new_timer time_out = record { time_out = time_out; base_time_out = time_out }

-- `<` of such an int64.
unfoldable pub int_less : ℕ → ℕ → Bool
int_less a b = ltb ((a + 2 ^ 63) % 2 ^ 64) ((b + 2 ^ 63) % 2 ^ 64)

-- `t.baseTimeOut*2^10` is an exclusive or in Go.
unfoldable pub increase_time_out : Timer → Timer
increase_time_out t =
    if int_less t.time_out (bit_xor (t.base_time_out * 2 % 2 ^ 64) 10)
    then record t { time_out = t.time_out * 2 % 2 ^ 64 }
    else t

unfoldable pub reset_time_out : Timer → Timer
reset_time_out t = record t { time_out = t.base_time_out }

pub data Change : Type 0 where
  increase reset : Change

unfoldable pub change : Change → Timer → Timer
change increase t = increase_time_out t
change reset t = reset_time_out t

unfoldable pub change_all : List Change → Timer → Timer
change_all [] t = t
change_all (c ∷ cs) t = change_all cs (change c t)

-- The base stays, and the time-out is between it and a bound.
record Bounded (base : ℕ) (t : Timer) : Type 0 where
  kept : t.base_time_out ≡ base
  below : base ≤ t.time_out
  above : t.time_out ≤ 4 * base + 20

increase_below : (a b : ℕ) → a < 2 ^ 63 → b < 2 ^ 63 → int_less a b ≡ true → a < b
unfolding int_less
increase_below a b ha hb h = ground arith

change-Bounded :
    (base : ℕ) (c : Change) (t : Timer) → base < 2 ^ 60 → Bounded base t → Bounded base (change c t)
unfolding change increase_time_out reset_time_out
change-Bounded base reset t small b = record {
  kept = b.kept;
  below = omega (arith, b.kept);
  above = omega (arith, b.kept);
}
change-Bounded base increase t small b =
    let limit = bit_xor (t.base_time_out * 2 % 2 ^ 64) 10 in
    let top : limit ≤ 2 * base + 10 =
      let le = bit_xor_le (t.base_time_out * 2 % 2 ^ 64) 10 in omega (arith, b.kept) in
    elim (Bool-cases (int_less t.time_out limit)) [
      | inl less ↦
          let lt : t.time_out < limit =
            increase_below t.time_out limit (omega arith) (omega arith) less in
          rw less (record { kept = b.kept; below = omega (arith, b.below); above = omega arith })
      | inr more ↦ rw more b
    ]

change_all-Bounded :
    (base : ℕ) (cs : List Change) (t : Timer)
    → base < 2 ^ 60
    → Bounded base t
    → Bounded base (change_all cs t)
unfolding change_all
change_all-Bounded base [] t small b = b
change_all-Bounded base (c ∷ cs) t small b =
    change_all-Bounded base cs (change c t) small (change-Bounded base c t small b)

-- From a base below 2 ^ 60 nanoseconds, whatever increases and resets come, the time-out is at least the
-- base and at most four times the base and 20 nanoseconds.
pub change_all_bounds :
    (base : ℕ) (cs : List Change)
    → base < 2 ^ 60
    → (base ≤ (change_all cs (new_timer base)).time_out)
      × ((change_all cs (new_timer base)).time_out ≤ 4 * base + 20)
change_all_bounds base cs small =
    let b =
      change_all-Bounded base cs (new_timer base) small
        (unfold new_timer in record { kept = refl; below = omega arith; above = omega arith }) in
    (b.below, b.above)
