-- ===== src/Fusion/Pipeline/Total.antt =====
-- The pipeline with its five stages, from the input to the result.
use df_code_audit.Prelude.{
  ℕ, suc, String, Bool, false, not, ◌≡◌, refl, sym, ap, ◌∙◌, some, List, [], ◌∷◌, length, filter,
  ◌&&◌, ◌||◌,
}
use df_code_audit.Prelude.Eq.{contains, String_eq, Distinct}
use df_code_audit.Fusion.Float.{Float32}
use df_code_audit.Fusion.Finding.{Heap, Ref, MergeGroup, ids, ids-Same, Same-trans}
use df_code_audit.Fusion.Context.{FusionContext, FusionMetrics, done, int32}
use df_code_audit.Fusion.Filter.{
  filter_stage, first_metrics, split_false_positives, flagged, split_lem,
}
use df_code_audit.Fusion.Merge.{merge_stage}
use df_code_audit.Fusion.Merge.Groups.{place_groups}
use df_code_audit.Fusion.Merge.Unique.{merge_stage_lem}
use df_code_audit.Fusion.Dedup.{dedup_stage}
use df_code_audit.Fusion.Dedup.Output.{is_duplicate, dedup_stage_lem}
use df_code_audit.Fusion.Conflict.{conflict_stage}
use df_code_audit.Fusion.Conflict.Keeps.{conflict_stage-Same}
use df_code_audit.Fusion.Confidence.{confidence_stage}
use df_code_audit.Fusion.Confidence.Bound.{confidence_stage-Same}
use df_code_audit.Fusion.Pipeline.{
  FusionResult, result, build_result, result_of, run_stages, execute, new_pipeline, init_context,
  Stage,
}

module _ {C : Type 0} where
  -- A stage that succeeds in time hands its context to the next.
  pub run_stages-done :
      (expired : ℕ → Bool) (duration : ℕ) (initial : FusionContext C) (stage : Stage C)
      (stages : List (Stage C)) (n : ℕ) (ctx ctx' : FusionContext C)
      → expired n ≡ false
      → stage ctx ≡ done ctx'
      → run_stages expired duration initial (stage ∷ stages) n ctx
        ≡ run_stages expired duration initial stages (suc n) ctx'
  unfolding run_stages
  run_stages-done expired duration initial stage stages n ctx ctx' in_time e =
      rw (in_time, e, run_stages)

  build_result-some :
      (ctx : FusionContext C) (duration : ℕ) (m : FusionMetrics)
      → ctx.metrics ≡ some m
      → build_result ctx duration ≡ result (result_of ctx m duration)
  unfolding build_result
  build_result-some ctx duration m e = simp (e, build_result)

module _ {C : Type 0} (fl : Float32 C) (expired : ℕ → Bool) (duration : ℕ)
    (in_time : (n : ℕ) → expired n ≡ false) where
  -- The last two stages keep the ids of the output, the groups and the metrics.
  run_stages-late :
      (initial c3 : FusionContext C)
      → (c5 : FusionContext C) × (run_stages expired duration initial
            (conflict_stage ∷ confidence_stage fl ∷ [])
            3
            c3
          ≡ build_result c5 duration)
        × (ids c5.heap c5.fused_findings ≡ ids c3.heap c3.fused_findings)
        × (c5.groups ≡ c3.groups)
        × (c5.metrics ≡ c3.metrics)
  unfolding run_stages
  run_stages-late initial c3 =
      let (c4, e4, same4, frame4) = conflict_stage-Same c3 in
      let (c5, e5, same5, frame5) = confidence_stage-Same fl c4 in
      let lists =
        ap (λ (c : FusionContext C). c.fused_findings) frame5
        ∙ ap (λ (c : FusionContext C). c.fused_findings) frame4 in
      (
        c5,
        run_stages-done expired duration initial conflict_stage (confidence_stage fl ∷ []) 3 c3 c4
              (in_time 3) e4
            ∙ run_stages-done expired duration initial (confidence_stage fl) [] 4 c4 c5 (in_time 4)
                e5,
        ids-Same (Same-trans same5 same4) c5.fused_findings ∙ ap (ids c3.heap) lists,
        ap (λ (c : FusionContext C). c.groups) frame5
            ∙ ap (λ (c : FusionContext C). c.groups) frame4,
        ap (λ (c : FusionContext C). c.metrics) frame5
            ∙ ap (λ (c : FusionContext C). c.metrics) frame4,
      )

  -- Deduplication and what follows, on a context with metrics.
  run_stages-dedup :
      (initial c2 : FusionContext C) (m : FusionMetrics)
      → c2.metrics ≡ some m
      → (r : FusionResult) × (run_stages expired duration initial
            (dedup_stage ∷ conflict_stage ∷ confidence_stage fl ∷ [])
            2
            c2
          ≡ result r)
        × (r.report.merge_groups ≡ c2.groups)
        × Distinct r.fused_finding_ids
        × ((id : String)
            → contains id r.fused_finding_ids ≡ (
                (contains id (ids c2.heap c2.filtered_sast)
                  || contains id (ids c2.heap c2.filtered_ai))
                && not (is_duplicate c2.groups id)))
        × (r.total_count ≡ int32 (length r.fused_finding_ids))
  unfolding result_of
  run_stages-dedup initial c2 m has_metrics =
      let (c3, e3, frame3, same3, once, listed) = dedup_stage_lem c2 in
      let (c5, e5, fused5, groups5, metrics5) = run_stages-late initial c3 in
      let fused = fused5 ∙ ids-Same same3 c3.fused_findings in
      (
        result_of c5 m duration,
        run_stages-done expired duration initial dedup_stage
              (conflict_stage ∷ confidence_stage fl ∷ []) 2 c2 c3 (in_time 2) e3
            ∙ e5
            ∙ build_result-some c5 duration m
                (metrics5 ∙ ap (λ (c : FusionContext C). c.metrics) frame3 ∙ has_metrics),
        groups5 ∙ ap (λ (c : FusionContext C). c.groups) frame3,
        rw fused once,
        λ id. ap (contains id) fused ∙ listed id,
        refl,
      )

membership :
    (a b c d : List String) (gs hs : List MergeGroup) (id : String)
    → a ≡ b
    → c ≡ d
    → gs ≡ hs
    → ((contains id a || contains id c) && not (is_duplicate gs id))
      ≡ ((contains id b || contains id d) && not (is_duplicate hs id))
membership a b c d gs hs id p q r = rw (p, q, r)

module _ {C : Type 0} (fl : Float32 C) where
  -- The context after the first stage.
  abbrev filtered_context : FusionContext C → FusionContext C
  filtered_context ctx =
      let (removed, kept) = split_false_positives fl ctx.heap ctx.sast_findings in
      record ctx {
        filtered_sast = kept;
        filtered_ai = ctx.ai_findings;
        filtered = removed;
        metrics = some (first_metrics fl ctx);
      }

  run_stages-merge :
      (expired : ℕ → Bool) (duration : ℕ) (in_time : (n : ℕ) → expired n ≡ false)
      (initial c1 : FusionContext C) (m : FusionMetrics) (kept : List Ref)
      → c1.metrics ≡ some m
      → c1.filtered_sast ≡ kept
      → (r : FusionResult) × (run_stages expired duration initial
            (merge_stage ∷ dedup_stage ∷ conflict_stage ∷ confidence_stage fl ∷ [])
            1
            c1
          ≡ result r)
        × (r.report.merge_groups ≡ place_groups c1.heap kept 0 c1.filtered_ai)
        × Distinct r.fused_finding_ids
        × ((id : String)
            → contains id r.fused_finding_ids ≡ (
                (contains id (ids c1.heap kept) || contains id (ids c1.heap c1.filtered_ai))
                && not (is_duplicate r.report.merge_groups id)))
        × (r.total_count ≡ int32 (length r.fused_finding_ids))
  run_stages-merge expired duration in_time initial c1 m kept has_metrics es =
      let (c2, e2, groups2, metrics2, frame2, same2, unique2) = merge_stage_lem c1 m has_metrics in
      let (r, e3, groups3, once, listed, total) =
        run_stages-dedup fl expired duration in_time initial c2
          (record m { merged_count = int32 (length c2.groups) }) metrics2 in
      let sast2 = ap (λ (c : FusionContext C). c.filtered_sast) frame2 ∙ es in
      let ai2 = ap (λ (c : FusionContext C). c.filtered_ai) frame2 in
      (
        r,
        run_stages-done expired duration initial merge_stage
              (dedup_stage ∷ conflict_stage ∷ confidence_stage fl ∷ []) 1 c1 c2 (in_time 1) e2
            ∙ e3,
        groups3 ∙ groups2 ∙ ap (λ (k : List Ref). place_groups c1.heap k 0 c1.filtered_ai) es,
        once,
        λ id.
            listed id
            ∙ membership _ _ _ _ c2.groups r.report.merge_groups id
                (ap (ids c2.heap) sast2 ∙ ids-Same same2 kept)
                (ap (ids c2.heap) ai2 ∙ ids-Same same2 c1.filtered_ai) (sym groups3),
        total,
      )

  -- Before its deadline the pipeline always ends with a fused result, never with the fallback or a
  -- panic. The groups are formed over the SAST findings that are not flagged as false alarms. No id
  -- stands twice in the result, and an id is in it exactly if an unflagged SAST finding or an AI
  -- finding has it and no group removes it. The count is the number of the ids, as an int32.
  pub execute-new_pipeline :
      (expired : ℕ → Bool) (duration : ℕ) (heap : Heap C) (task : String) (sast ai : List Ref)
      → ((n : ℕ) → expired n ≡ false)
      → let kept = filter (λ p. not (flagged fl heap p)) sast in
        (r : FusionResult) × (execute (new_pipeline fl) expired duration heap task sast ai
          ≡ result r)
        × (r.report.merge_groups ≡ place_groups heap kept 0 ai)
        × Distinct r.fused_finding_ids
        × ((id : String)
            → contains id r.fused_finding_ids ≡ (
                (contains id (ids heap kept) || contains id (ids heap ai))
                && not (is_duplicate r.report.merge_groups id)))
        × (r.total_count ≡ int32 (length r.fused_finding_ids))
  unfolding execute new_pipeline filter_stage
  execute-new_pipeline expired duration heap task sast ai in_time =
      let c0 = init_context heap task sast ai in
      let c1 = filtered_context c0 in
      let (r, e, groups, once, listed, total) =
        run_stages-merge expired duration in_time c0 c1 (first_metrics fl c0)
          (filter (λ p. not (flagged fl heap p)) sast) refl (split_lem fl heap sast).0 in
      (
        r,
        run_stages-done expired duration c0 (filter_stage fl)
              (merge_stage ∷ dedup_stage ∷ conflict_stage ∷ confidence_stage fl ∷ []) 0 c0 c1
              (in_time 0) refl
            ∙ e,
        groups,
        once,
        listed,
        total,
      )
