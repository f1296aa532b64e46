-- ===== src/Router/Float.antt =====
-- `float64` as internal/router/router.go uses it. The type and its operations are parameters of the
-- model, since there are no floating point numbers to compute with.
use llm_pico.Common.{ℕ, Bool}

pub record Float : Type 1 where
  pub F : Type 0
  pub of_int : ℕ → F
  pub add : F → F → F
  pub sub : F → F → F
  pub mul : F → F → F
  pub div : F → F → F
  pub least : F → F → F
  pub greatest : F → F → F
  pub less : F → F → Bool
  -- The constants 1 and 0.01.
  pub one : F
  pub hundredth : F
