-- ===== src/Segments.antt =====
-- engine/services/runtime-service/internal/service/verify_dedup.go: findings at one segment of code
-- share one round in the sandbox. Lines are int32; no tool reports a negative one, and the sum that the
-- code takes of one is written with its overflow.
pub mod Cover
pub mod Members
pub mod Gaps
pub mod Broadcast
use df_code_audit.Prelude.{
  ℕ, ◌+◌, ◌^◌, String, Bool, true, false, not, ◌&&◌, ◌||◌, Option, none, some, List, [], ◌∷◌, ◌++◌,
  if◌then◌else◌, ◌==◌, ltb, leb, filter,
}
use df_code_audit.Prelude.Eq.{beq, String_eq}
use df_code_audit.Prelude.Dict.{Dict, lookup, insert}
use df_code_audit.Prelude.Text.{concat}
use df_code_audit.Verdict.{VerdictDirection}
use df_code_audit.Fusion.Finding.{Severity, severity_unspecified, critical, high, medium, low, info}

-- What the grouping reads of a finding.
pub record Located : Type 0 where
  pub id : String
  pub path : String
  pub start_line : ℕ
  pub end_line : ℕ
  pub level : Severity

abbrev pub segment_radius_lines : ℕ
segment_radius_lines = 2

pub record SegmentGroup : Type 0 where
  pub rep : Located
  pub members : List Located

-- `segRange`: the start, and the end where it is not before the start.
abbrev pub seg_end : Located → ℕ
seg_end f = if ltb f.end_line f.start_line then f.start_line else f.end_line

unfoldable pub severity_rank : Severity → ℕ
severity_rank critical = 5
severity_rank high = 4
severity_rank medium = 3
severity_rank low = 2
severity_rank info = 1
severity_rank severity_unspecified = 0

-- Whether a finding takes the place of the representative so far.
abbrev pub outranks : Located → Located → Bool
outranks f rep =
    ltb (severity_rank rep.level) (severity_rank f.level)
    || (severity_rank f.level == severity_rank rep.level) && ltb f.start_line rep.start_line

unfoldable pub pick_from : Located → List Located → Located
pick_from rep [] = rep
pick_from rep (f ∷ fs) = pick_from (if outranks f rep then f else rep) fs

-- The order of the stable sort: by the start, then by the end.
abbrev pub before : Located → Located → Bool
before f g =
    if not (f.start_line == g.start_line)
    then ltb f.start_line g.start_line
    else ltb (seg_end f) (seg_end g)

-- `sort.SliceStable`: an element goes behind those that it is not before.
unfoldable pub insert_sorted : Located → List Located → List Located
insert_sorted f [] = f ∷ []
insert_sorted f (g ∷ gs) =
    let rest = insert_sorted f gs in if before f g then f ∷ g ∷ gs else g ∷ rest

unfoldable pub sort_onto : List Located → List Located → List Located
sort_onto sorted [] = sorted
sort_onto sorted (f ∷ fs) = sort_onto (insert_sorted f sorted) fs

unfoldable pub sort_stable : List Located → List Located
sort_stable fs = sort_onto [] fs

abbrev pub or_none : Option (List Located) → List Located
or_none none = []
or_none (some fs) = fs

-- The first loop: the findings of each path; the entries stand in the order of `fileOrder`.
unfoldable pub by_file : List Located → Dict String (List Located) → Dict String (List Located)
by_file [] m = m
by_file (f ∷ fs) m =
    by_file fs (if beq f.path "" then m else insert f.path (or_none (lookup f.path m) ++ f ∷ []) m)

-- The second loop: a finding without a path is a group of its own.
unfoldable pub unlocated : List Located → List SegmentGroup
unlocated [] = []
unlocated (f ∷ fs) =
    if beq f.path "" then record { rep = f; members = f ∷ [] } ∷ unlocated fs else unlocated fs

-- Whether a segment that starts at `s` goes on with the current one, in int32.
abbrev pub joins : ℕ → ℕ → Bool
joins s cur_end =
    ltb (cur_end + segment_radius_lines) (2 ^ 31) && leb s (cur_end + segment_radius_lines)

-- `flush`
unfoldable pub flush : Located → List Located → SegmentGroup
flush f fs = record { rep = pick_from f fs; members = f ∷ fs }

-- The sweep over the sorted findings of a file: the first member, the further members and the end of
-- the current group.
unfoldable pub sweep : Located → List Located → ℕ → List Located → List SegmentGroup
sweep first more cur_end [] = flush first more ∷ []
sweep first more cur_end (f ∷ fs) = elim (joins f.start_line cur_end) [
  | true ↦ sweep first (more ++ f ∷ []) (if ltb cur_end (seg_end f) then seg_end f else cur_end) fs
  | false ↦ flush first more ∷ sweep f [] (seg_end f) fs
]

unfoldable pub sweep_file : List Located → List SegmentGroup
sweep_file [] = []
sweep_file (f ∷ fs) = sweep f [] (seg_end f) fs

-- The last loop, over the files.
unfoldable pub sweep_files : Dict String (List Located) → List SegmentGroup
sweep_files [] = []
sweep_files ((path, fs) ∷ m) = sweep_file (sort_stable fs) ++ sweep_files m

unfoldable pub group_segments : List Located → List SegmentGroup
group_segments findings = unlocated findings ++ sweep_files (by_file findings [])

-- `pb.VerifiedFinding`; `C` is the type of its confidence and `E` that of an evidence item.
pub record VerifiedFinding (C E : Type 0) : Type 0 where
  pub original_finding_id : String
  pub direction : VerdictDirection
  pub confidence : C
  pub reasoning : String
  pub fix_suggestion : String
  pub evidence : List E

-- `broadcastGroupVerdict`: one verdict for each member, that of the representative.
unfoldable pub broadcast_group_verdict :
    {C E : Type 0} → VerifiedFinding C E → Located → List Located → List (VerifiedFinding C E)
broadcast_group_verdict base rep [] = []
broadcast_group_verdict base rep (m ∷ ms) =
    (if beq m.id rep.id then base else record {
      original_finding_id = m.id;
      direction = base.direction;
      confidence = base.confidence;
      reasoning = concat (concat (concat "同段判定（与 " rep.id) " 共用一轮沙箱，ADR-186）: ") base.reasoning;
      fix_suggestion = "";
      evidence = [];
    })
    ∷ broadcast_group_verdict base rep ms
