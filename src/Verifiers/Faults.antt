-- ===== src/Verifiers/Faults.antt =====
-- The errors of pkg/core/verifiers; a check returns `none` where the code returns nil.
use dusk_blockchain.Base.{Option, none, some, Bool, true, false, if◌then◌else◌, ◌≡◌, refl}

pub data Fault : Type 0 where
  invalid_version invalid_type low_fee no_inputs duplicate_inputs no_outputs duplicate_outputs :
      Fault
  bad_signature no_previous_output already_spent late_lock : Fault
  coinbase_not_first many_rewards wrong_reward : Fault
  database_fault block_exists many_coinbases no_coinbase : Fault
  unsupported_version wrong_previous wrong_height old_timestamp no_root root_mismatch : Fault
  bad_certificate : Fault

abbrev pub Check : Type 0
Check = Option Fault

-- `if err := first; err != nil { return err }`, with what follows.
infixr 4 ◌&?◌
abbrev pub ◌&?◌ : Check → Check → Check
◌&?◌ (some e) next = some e
◌&?◌ none next = next

-- Both passed.
pub both-pass : (first next : Check) → (first &? next) ≡ none → (first ≡ none) × (next ≡ none)
both-pass (some e) next h = cc
both-pass none next h = (refl, h)

pub pass-both : (first next : Check) → first ≡ none → next ≡ none → (first &? next) ≡ none
pass-both first next h k = rw (h, ◌&?◌) k

-- A guard that is passed.
pub guard-pass :
    (b : Bool) (e : Fault) (rest : Check)
    → (if b then some e else rest) ≡ none
    → (b ≡ false) × (rest ≡ none)
guard-pass true e rest h = cc
guard-pass false e rest h = (refl, h)
