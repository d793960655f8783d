-- ===== src/Fusion/Filter.antt =====
-- stage_filter.go: findings that the AI holds for false alarms with high confidence are removed.
use df_code_audit.Prelude.{
  ◌+◌, Bool, ◌&&◌, ◌≡◌, refl, some, List, [], ◌∷◌, arith, length, filter, not, map, if◌then◌else◌,
  Bool-cases, inl, inr,
}
use df_code_audit.Verdict.{direction_beq, tier_beq, direction_false, definite}
use df_code_audit.Fusion.Float.{Float32}
use df_code_audit.Fusion.Finding.{Heap, Ref, UnifiedFinding, FilteredItem}
use df_code_audit.Fusion.Context.{FusionContext, FusionMetrics, StageResult, done, int32}

module _ {C : Type 0} (fl : Float32 C) where
  -- The condition of the loop.
  unfoldable pub is_false_positive : UnifiedFinding C → Bool
  is_false_positive f =
      direction_beq f.verdict_direction direction_false
      && tier_beq f.verdict_tier definite
      && fl.gt f.ai_confidence fl.eight_tenths

  -- The loop over the SAST findings, with its two accumulated lists in order.
  unfoldable pub split_false_positives : Heap C → List Ref → List FilteredItem × List Ref
  split_false_positives heap [] = ([], [])
  split_false_positives heap (p ∷ ps) =
      let (removed, kept) = split_false_positives heap ps in
      if is_false_positive (heap p)
      then (
        record {
          filtered_finding_id = (heap p).finding_id;
          filter_reason = "AI verdict: FALSE_POSITIVE with high confidence";
        }
            ∷ removed,
        kept,
      )
      else (removed, p ∷ kept)

  -- The counts that the stage takes, in int32.
  abbrev pub first_metrics : FusionContext C → FusionMetrics
  first_metrics ctx = record {
    duration_ms = 0;
    input_sast_count = int32 (length ctx.sast_findings);
    input_ai_count = int32 (length ctx.ai_findings);
    output_count = 0;
    merged_count = 0;
    removed_false_positives = int32 (length (split_false_positives ctx.heap ctx.sast_findings).0);
    added_ai_findings = 0;
  }

  unfoldable pub filter_stage : FusionContext C → StageResult C
  filter_stage ctx =
      let (removed, kept) = split_false_positives ctx.heap ctx.sast_findings in
      done (record ctx {
        filtered_sast = kept;
        filtered_ai = ctx.ai_findings;
        filtered = removed;
        metrics = some (first_metrics ctx);
      })

  abbrev pub flagged : Heap C → Ref → Bool
  flagged heap p = is_false_positive (heap p)

  -- The two lists split the input, in its order: the kept references are those of findings that are
  -- not flagged, the removed ids those of the flagged ones, and none is lost.
  pub split_lem :
      (heap : Heap C) (ps : List Ref)
      → ((split_false_positives heap ps).1 ≡ filter (λ p. not (flagged heap p)) ps)
        × (map (λ (item : FilteredItem). item.filtered_finding_id) (split_false_positives heap ps).0
            ≡ map (λ p. (heap p).finding_id) (filter (flagged heap) ps))
        × (length (split_false_positives heap ps).0 + length (split_false_positives heap ps).1
            ≡ length ps)
  unfolding split_false_positives
  split_lem heap [] = (refl, refl, omega arith)
  split_lem heap (p ∷ ps) =
      let (keeps, removes, all_there) = split_lem heap ps in
      elim (Bool-cases (is_false_positive (heap p))) [
        | inl e ↦ rw e (keeps, ground (arith, removes), omega (arith, all_there))
        | inr e ↦ rw e (ground (arith, keeps), removes, omega (arith, all_there))
      ]
