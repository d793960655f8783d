-- ===== src/Fusion/Pipeline/Fallback.antt =====
-- A stage that fails, and the deadline.
use df_code_audit.Prelude.{
  ℕ, suc, String, Bool, true, false, ◌≡◌, refl, ◌∙◌, ap, List, [], ◌∷◌, ◌++◌, length,
}
use mathlib.Core.List.{map-append}
use df_code_audit.Fusion.Finding.{Heap, Ref, ids}
use df_code_audit.Fusion.Context.{FusionContext, done, panicked, int32}
use df_code_audit.Fusion.Pipeline.{
  FusionResult, result, deadline_exceeded, build_fallback_result, run_stages, execute, init_context,
  Stage,
}
use df_code_audit.Fusion.Pipeline.Total.{run_stages-done}

-- A run of stages that all succeed, from one context to another.
pub data Runs {C : Type 0} : List (Stage C) → FusionContext C → FusionContext C → Type 0 where
  none_left : {ctx : FusionContext C} → Runs [] ctx ctx
  one_more :
      {stage : Stage C} {stages : List (Stage C)} {a b c : FusionContext C}
      → stage a ≡ done b
      → Runs stages b c
      → Runs (stage ∷ stages) a c

module _ {C : Type 0} (expired : ℕ → Bool) (duration : ℕ) (initial : FusionContext C) where
  run_stages-Runs :
      {first : List (Stage C)} {a b : FusionContext C} (n : ℕ) (rest : List (Stage C))
      → ((k : ℕ) → expired k ≡ false)
      → Runs first a b
      → (k : ℕ) × (run_stages expired duration initial (first ++ rest) n a
          ≡ run_stages expired duration initial rest k b)
  run_stages-Runs n rest in_time none_left = (n, refl)
  run_stages-Runs n rest in_time (one_more {stage} {stages} {a = a'} {b = mid} e r) =
      let (k, p) = run_stages-Runs (suc n) rest in_time r in
      (
        k,
        run_stages-done expired duration initial stage (stages ++ rest) n a' mid (in_time n) e ∙ p,
      )

  run_stages-panic :
      (stage : Stage C) (rest : List (Stage C)) (n : ℕ) (ctx : FusionContext C)
      → expired n ≡ false
      → stage ctx ≡ panicked
      → run_stages expired duration initial (stage ∷ rest) n ctx
        ≡ result (build_fallback_result initial duration)
  unfolding run_stages
  run_stages-panic stage rest n ctx in_time e = rw (in_time, e, run_stages)

  run_stages-late :
      (stage : Stage C) (rest : List (Stage C)) (n : ℕ) (ctx : FusionContext C)
      → expired n ≡ true
      → run_stages expired duration initial (stage ∷ rest) n ctx ≡ deadline_exceeded
  unfolding run_stages
  run_stages-late stage rest n ctx late = rw (late, run_stages)

module _ {C : Type 0} where
  -- Whatever the stages of a pipeline are: if the first ones succeed in time and the next one panics,
  -- then the result is that of the unfused input, the ids of all SAST findings and then of all AI
  -- findings, and their number as an int32.
  pub execute-panic :
      (expired : ℕ → Bool) (duration : ℕ) (heap : Heap C) (task : String) (sast ai : List Ref)
      (first rest : List (Stage C)) (stage : Stage C) (ctx : FusionContext C)
      → ((n : ℕ) → expired n ≡ false)
      → Runs first (init_context heap task sast ai) ctx
      → stage ctx ≡ panicked
      → (r : FusionResult) × (execute (first ++ stage ∷ rest) expired duration heap task sast ai
          ≡ result r)
        × (r.fused_finding_ids ≡ ids heap sast ++ ids heap ai)
        × (r.total_count ≡ int32 (length (ids heap sast ++ ids heap ai)))
  unfolding execute build_fallback_result
  execute-panic expired duration heap task sast ai first rest stage ctx in_time runs fails =
      let initial = init_context heap task sast ai in
      let (k, e) = run_stages-Runs expired duration initial 0 (stage ∷ rest) in_time runs in
      let all_ids = map-append (λ p. (heap p).finding_id) sast ai in
      (
        build_fallback_result initial duration,
        e ∙ run_stages-panic expired duration initial stage rest k ctx (in_time k) fails,
        all_ids,
        ap (λ (l : List String). int32 (length l)) all_ids,
      )

  -- The deadline is checked before each stage: if it has passed when the first is due, the pipeline
  -- returns the error, whatever its stages are, as long as there is one.
  pub execute-expired :
      (expired : ℕ → Bool) (duration : ℕ) (heap : Heap C) (task : String) (sast ai : List Ref)
      (stage : Stage C) (rest : List (Stage C))
      → expired 0 ≡ true
      → execute (stage ∷ rest) expired duration heap task sast ai ≡ deadline_exceeded
  unfolding execute
  execute-expired expired duration heap task sast ai stage rest late =
      run_stages-late expired duration (init_context heap task sast ai) stage rest 0 _ late
