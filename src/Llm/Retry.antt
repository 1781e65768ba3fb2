-- ===== src/Llm/Retry.antt =====
-- `retry_async` of core/retry.py. The sleep between two attempts is not modelled.
use e_commerce_agent.Base.{ℕ, zero, suc, Bool, String, true, ◌≡◌, if◌then◌else◌}
use e_commerce_agent.Errors.{Error, Result, ok, err, unexpected}
use e_commerce_agent.Exec.{Exec}

-- How Python's exception classes descend from each other, by their names.
pub record Classes : Type 0 where
  pub is_subclass : String → String → Bool
  pub is_subclass-self : (name : String) → is_subclass name name ≡ true

module _ {S A : Type 0} (retryable : Error → Bool) (operation : Exec S A) where
  -- What follows an attempt, with how many are left; `again` makes the next one.
  abbrev pub after_attempt : ℕ → (S → Result A × S) → Result A × S → Result A × S
  after_attempt left again (ok a, s) = (ok a, s)
  after_attempt zero again (err e, s) = (err e, s)
  after_attempt (suc left) again (err e, s) = if retryable e then again s else (err e, s)

  unfoldable pub retry_async : ℕ → Exec S A
  retry_async zero s = (err (unexpected "RuntimeError"), s)
  retry_async (suc n) s = after_attempt n (λ s'. retry_async n s') (operation s)
