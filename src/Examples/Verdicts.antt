-- ===== src/Examples/Verdicts.antt =====
-- The predicates of the verdict at concrete verdicts.
use df_code_audit.Prelude.{true, ◌≡◌, refl}
use df_code_audit.Verdict.{
  direction_true, definite, has_conclusion, normalize_tier, is_confirmed_true,
}

confirmed : is_confirmed_true direction_true definite ≡ true
unfolding is_confirmed_true normalize_tier has_conclusion
confirmed = refl
