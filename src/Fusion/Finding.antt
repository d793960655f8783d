-- ===== src/Fusion/Finding.antt =====
-- The findings that the fusion pipeline works on (`pb.UnifiedFinding`), and Go's pointers to them: the
-- lists of the pipeline hold references, and every list sees what a stage writes through one.
use df_code_audit.Prelude.{
  ℕ, String, Bool, true, false, List, [], ◌∷◌, ◌≡◌, refl, if◌then◌else◌, ◌==◌, arith, map, ◌∙◌, ap,
  ==_iff, Bool-cases, inl, inr,
}
use df_code_audit.Prelude.Text.{Bytes}
use df_code_audit.Verdict.{VerdictDirection, VerdictTier}

pub data Severity : Type 0 where
  severity_unspecified critical high medium low info : Severity

abbrev pub severity_number : Severity → ℕ
severity_number severity_unspecified = 0
severity_number critical = 1
severity_number high = 2
severity_number medium = 3
severity_number low = 4
severity_number info = 5

abbrev pub severity_beq : Severity → Severity → Bool
severity_beq a b = severity_number a == severity_number b

pub severity_beq→eq : (a b : Severity) → severity_beq a b ≡ true → a ≡ b
severity_beq→eq a b h = ground arith

-- `start_line` is the int32's bit pattern: it is only compared. `C` is the type of `float32`.
pub record UnifiedFinding (C : Type 0) : Type 0 where
  pub finding_id : String
  pub source_tool : String
  pub file_path : Bytes
  pub start_line : ℕ
  pub severity : Severity
  pub verdict_direction : VerdictDirection
  pub verdict_tier : VerdictTier
  pub confidence : C
  pub ai_confidence : C
  pub matched_findings : List String
  pub is_unique : Bool
  pub dedup_group : String

pub record MergeGroup : Type 0 where
  pub group_id : String
  pub merged_finding_ids : List String
  pub primary_finding_id : String
  pub merge_reason : String

pub record ConflictItem : Type 0 where
  pub conflict_finding_ids : List String
  pub conflict_type : String
  pub resolution : String

pub record FilteredItem : Type 0 where
  pub filtered_finding_id : String
  pub filter_reason : String

-- A reference is a number; the heap gives what it points to.
abbrev pub Ref : Type 0
Ref = ℕ

abbrev pub Heap : Type 0 → Type 0
Heap C = Ref → UnifiedFinding C

-- A write through a reference.
abbrev pub write : {C : Type 0} → Heap C → Ref → UnifiedFinding C → Heap C
write heap p f q = if p == q then f else heap q

abbrev pub ids : {C : Type 0} → Heap C → List Ref → List String
ids heap = map λ p. (heap p).finding_id

-- What no stage ever writes: the two heaps agree on it at every reference.
pub record Same {C : Type 0} (g h : Heap C) : Type 0 where
  pub same_id : (p : Ref) → (g p).finding_id ≡ (h p).finding_id
  pub same_tool : (p : Ref) → (g p).source_tool ≡ (h p).source_tool
  pub same_path : (p : Ref) → (g p).file_path ≡ (h p).file_path
  pub same_line : (p : Ref) → (g p).start_line ≡ (h p).start_line

module _ {C : Type 0} where
  pub write_self : (h : Heap C) (p : Ref) (f : UnifiedFinding C) → write h p f p ≡ f
  write_self h p f = rw ((==_iff p p).1 refl)

  pub write-other :
      (h : Heap C) (p q : Ref) (f : UnifiedFinding C) → (p == q) ≡ false → write h p f q ≡ h q
  write-other h p q f e = rw e

  pub written :
      {B : Type 0} (field : UnifiedFinding C → B) (h : Heap C) (p : Ref) (f : UnifiedFinding C)
      → field f ≡ field (h p)
      → (q : Ref) → field (write h p f q) ≡ field (h q)
  written field h p f e q = elim (Bool-cases (p == q)) [
    | inl t ↦ rw t (e ∙ ap (λ (r : Ref). field (h r)) ((==_iff p q).0 t))
    | inr n ↦ rw n
  ]

  pub Same-refl : (h : Heap C) → Same h h
  Same-refl h = record {
    same_id = λ p. refl;
    same_tool = λ p. refl;
    same_path = λ p. refl;
    same_line = λ p. refl;
  }

  pub Same-trans : {f g h : Heap C} → Same f g → Same g h → Same f h
  Same-trans a b = record {
    same_id = λ p. a.same_id p ∙ b.same_id p;
    same_tool = λ p. a.same_tool p ∙ b.same_tool p;
    same_path = λ p. a.same_path p ∙ b.same_path p;
    same_line = λ p. a.same_line p ∙ b.same_line p;
  }

  -- A write that keeps the four fields of the finding it replaces.
  pub Same-write :
      (h : Heap C) (p : Ref) (f : UnifiedFinding C)
      → f.finding_id ≡ (h p).finding_id
      → f.source_tool ≡ (h p).source_tool
      → f.file_path ≡ (h p).file_path
      → f.start_line ≡ (h p).start_line
      → Same (write h p f) h
  Same-write h p f a b c d = record {
    same_id = λ q. written (λ g. g.finding_id) h p f a q;
    same_tool = λ q. written (λ g. g.source_tool) h p f b q;
    same_path = λ q. written (λ g. g.file_path) h p f c q;
    same_line = λ q. written (λ g. g.start_line) h p f d q;
  }

  pub ids-Same : {g h : Heap C} → Same g h → (ps : List Ref) → ids g ps ≡ ids h ps
  ids-Same s [] = refl
  ids-Same s (p ∷ ps) = rw (s.same_id p, ids-Same s ps)
