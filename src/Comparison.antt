-- ===== src/Comparison.antt =====
-- engine/services/sast-adapter-service/internal/handler/fusion_handler.go: the comparison of the
-- findings of the scanners with those of the AI. The counts are int32, which no list of findings fills.
-- The ratios that are computed from the counts, in float32, are left out. The fetch of the findings from the
-- result service is the child `Cache`.
pub mod Counting
pub mod Cache
pub mod Resolve
use df_code_audit.Prelude.{
  ℕ, zero, suc, ◌+◌, ◌-◌, ◌*◌, String, ◌≡◌, ◌↔◌, refl, ap, subst, ◌∙◌, arith, ==_iff, Bool, true,
  false, ◌&&◌, not, Option, none, some, List, [], ◌∷◌, ◌++◌, length, ltb, if◌then◌else◌, ◌==◌,
}
use df_code_audit.Prelude.Eq.{Eq, beq, beq_iff, String_eq, ℕ_eq, contains}
use text.Mathlib.TextEquality.{eq_iff}
use df_code_audit.Prelude.Dict.{Dict, lookup, insert, delete}

pub record Finding : Type 0 where
  pub id : String
  pub file_path : String
  pub start_line : ℕ
  pub severity : ℕ
  pub source_tool : String

abbrev pub LocationKey : Type 0
LocationKey = String × ℕ

abbrev pub key_beq : LocationKey → LocationKey → Bool
key_beq a b = beq a.0 b.0 && a.1 == b.1

abbrev located : ℕ → String → LocationKey
located m s = (s, m)

abbrev located_at : String → ℕ → LocationKey
located_at s m = (s, m)

pair_eq : (s t : String) (m n : ℕ) → s ≡ t → m ≡ n → ◌≡◌ {A = LocationKey} (s, m) (t, n)
pair_eq s t m n p q =
    let first : ◌≡◌ {A = LocationKey} (s, m) (t, m) = ap (located m) p in
    let second : ◌≡◌ {A = LocationKey} (t, m) (t, n) = ap (located_at t) q in first ∙ second

pub key_beq_iff : (a b : LocationKey) → (key_beq a b ≡ true) ↔ (a ≡ b)
key_beq_iff (s, m) (t, n) = (
  λ h. pair_eq s t m n ((eq_iff s t).0 (ground (arith, h))) ((==_iff m n).0 (ground (arith, h))),
  λ e.
      subst (λ (x : LocationKey). key_beq (s, m) x ≡ true) e
        (ground (arith, eq_iff s s, ==_iff m m)),
)

instance abbrev pub LocationKey_eq : Eq (String × ℕ)
LocationKey_eq = record { beq = key_beq; beq_iff = key_beq_iff }

unfoldable pub key_of : Finding → LocationKey
key_of f = (f.file_path, f.start_line)

pub record Quadrants : Type 0 where
  pub both : ℕ
  pub sast_only : ℕ
  pub ai_only : ℕ
  pub disagreement : ℕ

unfoldable pub split_by_source : List Finding → List Finding × List Finding
split_by_source [] = ([], [])
split_by_source (f ∷ fs) =
    let (sast, ai) = split_by_source fs in
    if beq f.source_tool "ai_agent" then (sast, f ∷ ai) else (f ∷ sast, ai)

-- One finding per location, the last one.
unfoldable pub index_from : List Finding → Dict LocationKey Finding → Dict LocationKey Finding
unfolding key_of
index_from [] m = m
index_from (f ∷ fs) m = index_from fs (insert (key_of f) f m)

abbrev pub is_found : Option Finding → Bool
is_found none = false
is_found (some f) = true

unfoldable pub count_location : Finding → Option Finding → Quadrants → Quadrants
count_location f none q = record q { sast_only = suc q.sast_only }
count_location f (some g) q = record q {
  both = suc q.both;
  disagreement = if f.severity == g.severity then q.disagreement else suc q.disagreement;
}

unfoldable pub count_sast :
    Dict LocationKey Finding → Dict LocationKey Finding → Quadrants → Quadrants
unfolding count_location
count_sast ai [] q = q
count_sast ai ((k, f) ∷ m) q = count_sast ai m (count_location f (lookup k ai) q)

-- `seen` holds the locations of the scanners' index.
unfoldable pub count_ai :
    Dict LocationKey Finding → Dict LocationKey Finding → Quadrants → Quadrants
count_ai sast [] q = q
count_ai sast ((k, f) ∷ m) q =
    count_ai sast m (if is_found (lookup k sast) then q else record q { ai_only = suc q.ai_only })

unfoldable pub quadrant_counts : List Finding → List Finding → Quadrants
unfolding index_from count_sast count_ai
quadrant_counts sast ai =
    let sast_index = index_from sast [] in
    let ai_index = index_from ai [] in
    count_ai sast_index ai_index (
      count_sast ai_index sast_index
        (record { both = 0; sast_only = 0; ai_only = 0; disagreement = 0 }))

-- The quadrants of `CalculateMetrics`.
unfoldable pub calculate_quadrants : List Finding → Quadrants
unfolding split_by_source quadrant_counts
calculate_quadrants findings = let (sast, ai) = split_by_source findings in quadrant_counts sast ai
