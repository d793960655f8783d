-- ===== src/Examples/Segmenting.antt =====
-- Findings of two tools at one statement, one further down, and one without a place.
use df_code_audit.Prelude.{ℕ, ◌≡◌, refl, List, [], ◌∷◌, map, count_if, All, String, ◌==◌}
use df_code_audit.Prelude.Dict.{lookup, insert}
use df_code_audit.Verdict.{direction_true}
use df_code_audit.Fusion.Finding.{high, medium}
use df_code_audit.Segments.{
  Located, SegmentGroup, VerifiedFinding, group_segments, sweep_file, sort_stable, unlocated,
  by_file, sweep_files, sort_onto, insert_sorted, sweep, flush,
}
use df_code_audit.Segments.Cover.{count_members, group_segments-cover}
use df_code_audit.Segments.Members.{IsProper, group_segments-IsProper}

abbrev at : String → String → ℕ → Located
at id path line = record { id = id; path = path; start_line = line; end_line = 0; level = medium }

abbrev severe : Located
severe = record (at "f2" "app.py" 12) { level = high }

abbrev findings : List Located
findings = at "f3" "app.py" 15 ∷ at "f1" "app.py" 10 ∷ at "f0" "" 0 ∷ severe ∷ []

ids_of : List SegmentGroup → List (List String)
ids_of [] = []
ids_of (g ∷ gs) = map (λ (f : Located). f.id) g.members ∷ ids_of gs

-- The third finding begins one line too far down.
grouped : ids_of (group_segments findings) ≡ ("f0" ∷ []) ∷ ("f1" ∷ "f2" ∷ []) ∷ ("f3" ∷ []) ∷ []
unfolding ids_of group_segments unlocated by_file sweep_files sort_stable sort_onto insert_sorted
    sweep_file sweep flush lookup insert
grouped = refl

group_segments-cover_example :
    count_members (λ f. f.start_line == 12) (group_segments findings)
    ≡ count_if (λ f. f.start_line == 12) findings
group_segments-cover_example = group_segments-cover (λ f. f.start_line == 12) findings

group_segments-IsProper_example : All IsProper (group_segments findings)
group_segments-IsProper_example = group_segments-IsProper findings

abbrev verdict : VerifiedFinding ℕ String
verdict = record {
  original_finding_id = "f2";
  direction = direction_true;
  confidence = 90;
  reasoning = "reached";
  fix_suggestion = "";
  evidence = "trace" ∷ [];
}
