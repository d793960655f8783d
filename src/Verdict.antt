-- ===== src/Verdict.antt =====
-- engine/libs/common-go/verdict/verdict.go: the predicates over the two axes of a verdict.
use df_code_audit.Prelude.{
  Bool, true, false, not, ◌&&◌, ◌||◌, ◌≡◌, ◌↔◌, arith, ℕ, ◌==◌, if◌then◌else◌,
}

pub data VerdictDirection : Type 0 where
  direction_unspecified direction_true direction_false : VerdictDirection

pub data VerdictTier : Type 0 where
  tier_unspecified definite likely : VerdictTier

abbrev pub direction_number : VerdictDirection → ℕ
direction_number direction_unspecified = 0
direction_number direction_true = 1
direction_number direction_false = 2

abbrev pub tier_number : VerdictTier → ℕ
tier_number tier_unspecified = 0
tier_number definite = 1
tier_number likely = 2

abbrev pub direction_beq : VerdictDirection → VerdictDirection → Bool
direction_beq d e = direction_number d == direction_number e

abbrev pub tier_beq : VerdictTier → VerdictTier → Bool
tier_beq t u = tier_number t == tier_number u

pub direction_beq→eq : (d e : VerdictDirection) → direction_beq d e ≡ true → d ≡ e
direction_beq→eq d e h = ground arith

pub tier_beq→eq : (t u : VerdictTier) → tier_beq t u ≡ true → t ≡ u
tier_beq→eq t u h = ground arith

unfoldable pub has_conclusion : VerdictDirection → Bool
has_conclusion d = not (direction_beq d direction_unspecified)

unfoldable pub normalize_tier : VerdictDirection → VerdictTier → VerdictTier
unfolding has_conclusion
normalize_tier d t = if not (has_conclusion d) then tier_unspecified else t

unfoldable pub needs_review : VerdictDirection → VerdictTier → Bool
unfolding has_conclusion normalize_tier
needs_review d t = not (has_conclusion d) || tier_beq (normalize_tier d t) likely

unfoldable pub is_confirmed_true : VerdictDirection → VerdictTier → Bool
unfolding normalize_tier
is_confirmed_true d t = direction_beq d direction_true && tier_beq (normalize_tier d t) definite

unfoldable pub is_confirmed_false : VerdictDirection → VerdictTier → Bool
unfolding normalize_tier
is_confirmed_false d t = direction_beq d direction_false && tier_beq (normalize_tier d t) definite

-- The three report buckets are disjoint. They cover every verdict but one with a direction and
-- without a tier, which falls into none of them.
pub buckets_partition :
    (d : VerdictDirection) (t : VerdictTier)
    → ((is_confirmed_true d t && is_confirmed_false d t) ≡ false)
      × ((is_confirmed_true d t && needs_review d t) ≡ false)
      × ((is_confirmed_false d t && needs_review d t) ≡ false)
      × (((is_confirmed_true d t || is_confirmed_false d t || needs_review d t) ≡ false)
          ↔ ((has_conclusion d ≡ true) × (t ≡ tier_unspecified)))
unfolding is_confirmed_true is_confirmed_false needs_review
buckets_partition d t = ground arith

-- Every predicate gives for a verdict what it gives for its normal form, which is a fixed point.
pub normalize_tier-invariant :
    (d : VerdictDirection) (t : VerdictTier)
    → (normalize_tier d (normalize_tier d t) ≡ normalize_tier d t)
      × (needs_review d (normalize_tier d t) ≡ needs_review d t)
      × (is_confirmed_true d (normalize_tier d t) ≡ is_confirmed_true d t)
      × (is_confirmed_false d (normalize_tier d t) ≡ is_confirmed_false d t)
unfolding is_confirmed_true is_confirmed_false needs_review
normalize_tier-invariant d t = ground arith
