-- ===== src/Fusion/Float.antt =====
-- The arithmetic of `float32` that the stages call, as an interface: rounding is left open.
use df_code_audit.Prelude.{ℕ, Bool}

pub record Float32 (C : Type 0) : Type 0 where
  pub zero : C
  pub one : C
  pub tenth : C
  pub eight_tenths : C
  pub of_int : ℕ → C
  pub add : C → C → C
  pub mul : C → C → C
  pub div : C → C → C
  pub gt : C → C → Bool
