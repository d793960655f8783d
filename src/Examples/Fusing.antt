-- ===== src/Examples/Fusing.antt =====
-- A project with two applications, each with an injection at line 3 of its app.py. Three scanner
-- findings and two findings of the AI, whose paths are shorter.
use df_code_audit.Prelude.{
  ℕ, ◌+◌, ◌*◌, ◌/◌, String, Bool, true, false, not, ◌&&◌, ◌||◌, ◌≡◌, refl, ◌↔◌, ◌⊎◌, List, [], ◌∷◌,
  ◌++◌, filter, length, if◌then◌else◌, ◌==◌, ltb,
}
use df_code_audit.Prelude.Eq.{String_eq, contains, Distinct}
use df_code_audit.Prelude.Text.{Bytes, has_suffix}
use df_code_audit.Verdict.{
  direction_unspecified, direction_true, direction_false, tier_unspecified, definite, likely,
}
use df_code_audit.Fusion.Float.{Float32}
use df_code_audit.Fusion.Finding.{high, low, UnifiedFinding, Heap, Ref, ids}
use df_code_audit.Fusion.Context.{panicked, int32}
use df_code_audit.Fusion.Filter.{is_false_positive, split_false_positives, flagged}
use df_code_audit.Fusion.Merge.{
  normalize_rel_path, replace_backslashes, trim_dots, trim_slash, same_vuln_file,
}
use df_code_audit.Fusion.Merge.Paths.{same_vuln_file_iff}
use df_code_audit.Fusion.Merge.Groups.{place_groups}
use df_code_audit.Fusion.Dedup.Output.{is_duplicate}
use df_code_audit.Fusion.Pipeline.{FusionResult, result, Stage, execute, new_pipeline}
use df_code_audit.Fusion.Pipeline.Total.{execute-new_pipeline}

-- Confidences in hundredths.
abbrev pub hundredths : Float32 ℕ
hundredths = record {
  zero = 0;
  one = 100;
  tenth = 10;
  eight_tenths = 80;
  of_int = λ n. n * 100;
  add = λ a b. a + b;
  mul = λ a b. a * b / 100;
  div = λ a b. a * 100 / b;
  gt = λ a b. ltb b a;
}

abbrev pub blank : String → String → Bytes → UnifiedFinding ℕ
blank id tool path = record {
  finding_id = id;
  source_tool = tool;
  file_path = path;
  start_line = 3;
  severity = high;
  verdict_direction = direction_unspecified;
  verdict_tier = tier_unspecified;
  confidence = 60;
  ai_confidence = 0;
  matched_findings = [];
  is_unique = false;
  dedup_group = "";
}

abbrev pub app : Bytes
app = b'a' ∷ b'.' ∷ b'p' ∷ b'y' ∷ []

abbrev pub below : ℕ → Bytes
below c = b'.' ∷ b'/' ∷ c ∷ b'/' ∷ app

-- 0 and 1 are of the two applications, 2 is a false alarm; 3 and 4 are the AI's.
abbrev pub found : Heap ℕ
found p =
    if p == 0
    then blank "s0" "semgrep" (below b'x')
    else if p == 1
    then blank "s1" "semgrep" (below b'y')
    else if p == 2
    then record (blank "s2" "semgrep" (b'z' ∷ [])) {
      verdict_direction = direction_false;
      verdict_tier = definite;
      ai_confidence = 90;
    }
    else if p == 3
    then record (blank "a3" "ai_agent" app) {
      severity = low;
      verdict_direction = direction_true;
      verdict_tier = likely;
    }
    else blank "a4" "ai_agent" (b'y' ∷ b'/' ∷ app)

abbrev pub scanned : List Ref
scanned = 0 ∷ 1 ∷ 2 ∷ []

abbrev pub advised : List Ref
advised = 3 ∷ 4 ∷ []

abbrev never : ℕ → Bool
never n = false

same_vuln_file_iff_example : (same_vuln_file (below b'x') app ≡ true) ↔ (
    (normalize_rel_path (below b'x') ≡ normalize_rel_path app)
    ⊎ ((directory : Bytes) × (normalize_rel_path (below b'x')
          ≡ directory ++ (b'/' ∷ normalize_rel_path app))))
same_vuln_file_iff_example = same_vuln_file_iff (below b'x') app

same_file : same_vuln_file (below b'x') app ≡ true
unfolding same_vuln_file normalize_rel_path replace_backslashes trim_dots trim_slash has_suffix
same_file = refl

one_removed : (split_false_positives hundredths found (0 ∷ 2 ∷ 1 ∷ [])).1 ≡ 0 ∷ 1 ∷ []
unfolding split_false_positives is_false_positive
one_removed = refl

execute-new_pipeline_example :
    let kept = filter (λ p. not (flagged hundredths found p)) scanned in
    (r : FusionResult) × (execute (new_pipeline hundredths) never 7 found "task" scanned advised
      ≡ result r)
    × (r.report.merge_groups ≡ place_groups found kept 0 advised)
    × Distinct r.fused_finding_ids
    × ((id : String)
        → contains id r.fused_finding_ids ≡ (
            (contains id (ids found kept) || contains id (ids found advised))
            && not (is_duplicate r.report.merge_groups id)))
    × (r.total_count ≡ int32 (length r.fused_finding_ids))
execute-new_pipeline_example =
    execute-new_pipeline hundredths never 7 found "task" scanned advised (λ n. refl)

abbrev broken : Stage ℕ
broken ctx = panicked
