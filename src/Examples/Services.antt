-- ===== src/Examples/Services.antt =====
-- Tests and examples: patches, packs, access, streams and frames.
use df_code_audit.Prelude.{
  pos, String, true, false, ◌≡◌, ◌↔◌, refl, ◌==◌, none, some, List, [], ◌∷◌, if◌then◌else◌,
}
use df_code_audit.Prelude.Eq.{beq, String_eq}
use df_code_audit.Prelude.Text.{
  Bytes, codes, trim_space, trim_left, trim_right, is_white, kept_before,
}
use df_code_audit.Patches.{
  Finding, at, negative, PatchFix, Checked, normalized, invalid, apply_patch_phase, merged,
  merge_fixes, merge_fix, place_at, place, items,
}
use df_code_audit.Patches.Quality.{each_patched, any_offer, apply_patch_phase-each_patched}
use df_code_audit.Packs.{
  Pack, GraphSpec, default_refs, validate, load_dir, packs, anchored_ref, is_blank, name_matches,
  check_constraints, check_execution, split_last, anchored, is_floating, lower, to_lower,
  float_tags, among, constraint_matches, is_zero_graph, is_zero,
}
use df_code_audit.Packs.Anchor.{Anchored, anchored_ref_iff}
use df_code_audit.Packs.Valid.{Valid}
use df_code_audit.Authz.{Caller, Lookup, found, not_found, can_batch_verdict}
use df_code_audit.Authz.Batch.{one_by_one, can_batch_verdict-one_by_one}
use df_code_audit.Watch.{
  new_hub, open_stream, try_send, written, announce, at_start, after, read, write, announces,
}
use df_code_audit.Watch.Awake.{Awake, Steps-Awake}
use df_code_audit.Frames.{Frame, scan, trim_cr}
use df_code_audit.Frames.Print.{print_frames, numbered, IsPlain, gather, scan-print_frames}

abbrev finding : Finding
finding = record {
  title = "t";
  file_path = "a.go";
  start_line = 3;
  fix_suggestion = "";
  diff_patch = [];
}

-- A patch validates if it begins with an asterisk.
abbrev starred : Bytes → Checked
starred [] = invalid "empty"
starred (c ∷ s) = if c == 42 then normalized (c ∷ s) else invalid "no star"

abbrev offered : List PatchFix
offered =
    record { index = at 0; diff_patch = 42 ∷ [] }
    ∷ record { index = at 7; diff_patch = 42 ∷ [] }
    ∷ record { index = negative; diff_patch = 42 ∷ [] }
    ∷ []

first_round :
    apply_patch_phase starred (λ items. some offered) (finding ∷ [])
    ≡ record finding { diff_patch = 42 ∷ [] } ∷ []
unfolding apply_patch_phase merged merge_fixes merge_fix place_at place items trim_space trim_left
    trim_right is_white kept_before
first_round = refl

apply_patch_phase-each_patched_example :
    apply_patch_phase starred (λ items. some offered) (finding ∷ [])
    ≡ each_patched (any_offer starred) offered 0 (finding ∷ [])
apply_patch_phase-each_patched_example =
    apply_patch_phase-each_patched starred (λ items. some offered) (finding ∷ [])

abbrev failed_finding : Finding
failed_finding = record finding { diff_patch = 43 ∷ [] }

anchored_ref_iff_example :
    (anchored_ref "assignmentTemplate@v1" none ≡ true)
    ↔ Anchored none (codes "assignmentTemplate@v1")
anchored_ref_iff_example = anchored_ref_iff "assignmentTemplate@v1" none

abbrev no_graph : GraphSpec
no_graph = record {
  seed_intents = [];
  constraints = record {
    max_nodes = pos 0;
    allowed_types = [];
    max_planner_replans = pos 0;
    max_attempts_per_node = pos 0;
  };
  timeouts = record { planner = pos 0; executor = pos 0; verifier = pos 0 };
}

abbrev audit_pack : Pack
audit_pack = record {
  api_version = "codeaudit.pack/v0";
  kind = "WorkloadPack";
  name = "audit-1";
  description = "d";
  spec = record {
    image = "i";
    dialect = "dsh-sse";
    network_profile = "restricted";
    brief_renderer = "baton-brief";
    render_target = "initial-prompt";
    template_ref = "assignmentTemplate@v1";
    schema_ref = "findings/submit_findings@v2";
    parser = "text-final";
    per_turn = "a";
    task_total = "b";
    constraints_schema = "scope" ∷ "depth" ∷ [];
    execution = "";
    graph = no_graph;
  };
}

audit_pack_loads : load_dir default_refs [] (some audit_pack ∷ []) ≡ packs (audit_pack ∷ [])
unfolding load_dir validate default_refs is_blank anchored_ref name_matches check_constraints
    check_execution trim_space trim_left trim_right is_white kept_before split_last anchored
    is_floating lower to_lower float_tags among constraint_matches is_zero_graph is_zero
audit_pack_loads = refl

abbrev caller : Caller
caller = record { user = "ann"; role = "ROLE_DEVELOPER" }

abbrev task_of : String → Lookup String
task_of id = if beq id "f1" then found "task-1" else not_found

can_batch_verdict-one_by_one_example :
    can_batch_verdict (λ id. found "ann") task_of task_of caller ("f1" ∷ "" ∷ "f1" ∷ "f2" ∷ [])
    ≡ one_by_one (λ id. found "ann") task_of task_of caller ("f1" ∷ "" ∷ "f1" ∷ "f2" ∷ [])
can_batch_verdict-one_by_one_example =
    can_batch_verdict-one_by_one (λ id. found "ann") task_of task_of caller
      ("f1" ∷ "" ∷ "f1" ∷ "f2" ∷ [])

Steps-Awake_example :
    Awake "task-1"
      (announce "task-1" (written false (try_send (open_stream "task-1" new_hub 4 false))))
unfolding open_stream
Steps-Awake_example =
    Steps-Awake "task-1" new_hub 4 false
      (announce "task-1" (written false (try_send (open_stream "task-1" new_hub 4 false))))
      (after (written false (try_send (open_stream "task-1" new_hub 4 false))) _
        (after (try_send (open_stream "task-1" new_hub 4 false)) _
          (after (open_stream "task-1" new_hub 4 false) _ at_start
            (read (open_stream "task-1" new_hub 4 false) refl))
          (write false (try_send (open_stream "task-1" new_hub 4 false))))
        (announces (written false (try_send (open_stream "task-1" new_hub 4 false)))))

abbrev one_frame : Frame
one_frame = record { name = 97 ∷ []; event_data = 123 ∷ 125 ∷ []; line = 0; ts = [] }

one_frame-IsPlain : IsPlain one_frame
unfolding trim_cr
one_frame-IsPlain = record { name = refl; event_data = refl; ts = refl }

scan-print_frames_example :
    scan {S = List Frame} {E = String} gather none (print_frames (one_frame ∷ one_frame ∷ [])) []
    ≡ (numbered 0 (one_frame ∷ one_frame ∷ []), none)
scan-print_frames_example =
    scan-print_frames none (one_frame ∷ one_frame ∷ []) (one_frame-IsPlain, (one_frame-IsPlain, tt))
