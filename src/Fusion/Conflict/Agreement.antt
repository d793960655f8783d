-- ===== src/Fusion/Conflict/Agreement.antt =====
-- What the two sides of a group agree on after the conflict stage.
use df_code_audit.Prelude.{
  ℕ, String, Bool, true, false, ◌≡◌, refl, sym, ap, ◌∙◌, ◌&&◌, Option, none, some, List, [], ◌∷◌,
  length, if◌then◌else◌, ltb, arith, ◌==◌, ==_iff, inl, inr, Bool-cases,
}
use df_code_audit.Prelude.Eq.{String_eq}
use df_code_audit.Prelude.Dict.{Dict, lookup}
use df_code_audit.Verdict.{direction_beq→eq, tier_beq→eq}
use df_code_audit.Fusion.Finding.{
  Heap, Ref, UnifiedFinding, MergeGroup, ConflictItem, severity_beq, severity_beq→eq, write_self,
  write-other,
}
use df_code_audit.Fusion.Conflict.{
  Sides, is_ai, pick_side, pick_sides, resolve_severity, resolve_verdict, has_verdict,
  verdicts_differ, resolve_sides, resolve_group,
}

abbrev count_of : Bool → ℕ
count_of true = 1
count_of false = 0

module _ {C : Type 0} where
  -- What the sides that are found are: members of the two kinds.
  abbrev SideKinds : Heap C → Sides → Type 0
  SideKinds heap s =
      ((p : Ref) → s.sast ≡ some p → is_ai (heap p) ≡ false)
      × ((p : Ref) → s.ai ≡ some p → is_ai (heap p) ≡ true)

  pick_side-kinds :
      (heap : Heap C) (o : Option Ref) (s : Sides)
      → SideKinds heap s
      → SideKinds heap (pick_side heap o s)
  unfolding pick_side
  pick_side-kinds heap none s k = k
  pick_side-kinds heap (some q) s k =
      ((λ p e. ground (arith, k.0 p, e)), λ p e. ground (arith, k.1 p, e))

  pick_sides-kinds :
      (heap : Heap C) (by_id : Dict String Ref) (members : List String) (s : Sides)
      → SideKinds heap s
      → SideKinds heap (pick_sides heap by_id members s)
  unfolding pick_sides
  pick_sides-kinds heap by_id [] s k = k
  pick_sides-kinds heap by_id (id ∷ members) s k =
      pick_sides-kinds heap by_id members (pick_side heap (lookup id by_id) s)
        (pick_side-kinds heap (lookup id by_id) s k)

  -- Two findings of different kinds, before and after their conflict is resolved.
  pub record Resolved (heap heap' : Heap C) (sast ai : Ref) : Type 0 where
    pub severities_agree : (heap' ai).severity ≡ (heap sast).severity
    pub sast_severity_kept : (heap' sast).severity ≡ (heap sast).severity
    pub ai_verdict_kept :
        ((heap' ai).verdict_direction ≡ (heap ai).verdict_direction)
        × ((heap' ai).verdict_tier ≡ (heap ai).verdict_tier)
    pub direction_agreed : (heap' sast).verdict_direction ≡ (
        if has_verdict (heap sast) && has_verdict (heap ai)
        then (heap ai).verdict_direction
        else (heap sast).verdict_direction)
    pub tier_agreed : (heap' sast).verdict_tier ≡ (
        if has_verdict (heap sast) && has_verdict (heap ai)
        then (heap ai).verdict_tier
        else (heap sast).verdict_tier)

  -- The first half: the severities.
  severity_step :
      (g : MergeGroup) (sast ai : Ref) (st : Heap C × List ConflictItem)
      → (ai == sast) ≡ false
      → ((resolve_severity g sast ai st).0 sast ≡ st.0 sast)
        × (((resolve_severity g sast ai st).0 ai).severity ≡ (st.0 sast).severity)
        × (((resolve_severity g sast ai st).0 ai).verdict_direction ≡ (st.0 ai).verdict_direction)
        × (((resolve_severity g sast ai st).0 ai).verdict_tier ≡ (st.0 ai).verdict_tier)
  unfolding resolve_severity
  severity_step g sast ai (heap, conflicts) ne =
      elim (Bool-cases (severity_beq (heap sast).severity (heap ai).severity)) [
        | inl e ↦ rw (e, resolve_severity) (refl, sym (severity_beq→eq _ _ e), refl, refl)
        | inr e ↦
            rw (e, resolve_severity)
              (
                write-other heap ai sast _ ne,
                ap (λ (f : UnifiedFinding C). f.severity) (write_self heap ai _),
                ap (λ (f : UnifiedFinding C). f.verdict_direction) (write_self heap ai _),
                ap (λ (f : UnifiedFinding C). f.verdict_tier) (write_self heap ai _),
              )
      ]

  -- The two findings' verdicts where the stage sees no conflict between them.
  agreed_direction :
      (f g : UnifiedFinding C)
      → (has_verdict f && has_verdict g && verdicts_differ f g) ≡ false
      → f.verdict_direction
        ≡ (if has_verdict f && has_verdict g then g.verdict_direction else f.verdict_direction)
  agreed_direction f g e = ground (arith, direction_beq→eq f.verdict_direction g.verdict_direction)

  agreed_tier :
      (f g : UnifiedFinding C)
      → (has_verdict f && has_verdict g && verdicts_differ f g) ≡ false
      → f.verdict_tier ≡ (if has_verdict f && has_verdict g then g.verdict_tier else f.verdict_tier)
  agreed_tier f g e = ground (arith, tier_beq→eq f.verdict_tier g.verdict_tier)

  both_have :
      (f g : UnifiedFinding C)
      → (has_verdict f && has_verdict g && verdicts_differ f g) ≡ true
      → (has_verdict f && has_verdict g) ≡ true
  both_have f g e = ground arith

  apart :
      (heap : Heap C) (p q : Ref)
      → is_ai (heap p) ≡ false
      → is_ai (heap q) ≡ true
      → (p == q) ≡ false
  apart heap p q a b = elim (Bool-cases (p == q)) [
    | inl e ↦ cc (a, b, ap (λ (r : Ref). is_ai (heap r)) ((==_iff p q).0 e))
    | inr e ↦ e
  ]

  apart' :
      (heap : Heap C) (p q : Ref)
      → is_ai (heap p) ≡ false
      → is_ai (heap q) ≡ true
      → (q == p) ≡ false
  apart' heap p q a b = elim (Bool-cases (q == p)) [
    | inl e ↦ cc (a, b, ap (λ (r : Ref). is_ai (heap r)) ((==_iff q p).0 e))
    | inr e ↦ e
  ]

  -- The second half: the verdicts.
  verdict_step :
      (g : MergeGroup) (sast ai : Ref) (st : Heap C × List ConflictItem)
      → (sast == ai) ≡ false
      → ((resolve_verdict g sast ai st).0 ai ≡ st.0 ai)
        × (((resolve_verdict g sast ai st).0 sast).severity ≡ (st.0 sast).severity)
        × (((resolve_verdict g sast ai st).0 sast).verdict_direction ≡ (
            if has_verdict (st.0 sast) && has_verdict (st.0 ai)
            then (st.0 ai).verdict_direction
            else (st.0 sast).verdict_direction))
        × (((resolve_verdict g sast ai st).0 sast).verdict_tier ≡ (
            if has_verdict (st.0 sast) && has_verdict (st.0 ai)
            then (st.0 ai).verdict_tier
            else (st.0 sast).verdict_tier))
  unfolding resolve_verdict
  verdict_step g sast ai (heap, conflicts) ne =
      elim (Bool-cases (
        has_verdict (heap sast)
        && has_verdict (heap ai)
        && verdicts_differ (heap sast) (heap ai))) [
          | inl e ↦
              rw (e, resolve_verdict, both_have (heap sast) (heap ai) e)
                (
                  write-other heap sast ai _ ne,
                  ap (λ (f : UnifiedFinding C). f.severity) (write_self heap sast _),
                  ap (λ (f : UnifiedFinding C). f.verdict_direction) (write_self heap sast _),
                  ap (λ (f : UnifiedFinding C). f.verdict_tier) (write_self heap sast _),
                )
          | inr e ↦
              rw (e, resolve_verdict)
                (
                  refl,
                  refl,
                  agreed_direction (heap sast) (heap ai) e,
                  agreed_tier (heap sast) (heap ai) e,
                )
        ]

  resolve_sides-Resolved :
      (g : MergeGroup) (sast ai : Ref) (st : Heap C × List ConflictItem)
      → (sast == ai) ≡ false
      → (ai == sast) ≡ false
      → Resolved st.0 (resolve_sides g (some sast) (some ai) st).0 sast ai
  unfolding resolve_sides
  resolve_sides-Resolved g sast ai st ne ne' =
      let st' = resolve_severity g sast ai st in
      let (s1, s2, s3, s4) = severity_step g sast ai st ne' in
      let (v1, v2, v3, v4) = verdict_step g sast ai st' ne in
      record {
        severities_agree = ap (λ (f : UnifiedFinding C). f.severity) v1 ∙ s2;
        sast_severity_kept = v2 ∙ ap (λ (f : UnifiedFinding C). f.severity) s1;
        ai_verdict_kept = (
          ap (λ (f : UnifiedFinding C). f.verdict_direction) v1 ∙ s3,
          ap (λ (f : UnifiedFinding C). f.verdict_tier) v1 ∙ s4,
        );
        direction_agreed = v3 ∙ rw (s1, s3);
        tier_agreed = v4 ∙ rw (s1, s3, s4);
      }

  -- In a group of two or more with a first SAST member and a first AI member, the AI finding takes the
  -- severity of the SAST one, which keeps its own. If both have a verdict, the SAST finding takes the
  -- AI's direction and tier, and else it keeps its own; the AI finding keeps its verdict.
  pub resolve_group-Resolved :
      (by_id : Dict String Ref) (g : MergeGroup) (st : Heap C × List ConflictItem) (sast ai : Ref)
      → ltb (length g.merged_finding_ids) 2 ≡ false
      → pick_sides st.0 by_id g.merged_finding_ids (record { sast = none; ai = none })
        ≡ record { sast = some sast; ai = some ai }
      → Resolved st.0 (resolve_group by_id g st).0 sast ai
  unfolding resolve_group
  resolve_group-Resolved by_id g st sast ai size e =
      let kinds =
        pick_sides-kinds st.0 by_id g.merged_finding_ids (record { sast = none; ai = none })
          ((λ p n. cc), λ p n. cc) in
      let ks = kinds.0 sast (ap (λ (s : Sides). s.sast) e) in
      let ka = kinds.1 ai (ap (λ (s : Sides). s.ai) e) in
      rw (size, e, resolve_group)
        (resolve_sides-Resolved g sast ai st (apart st.0 sast ai ks ka) (apart' st.0 sast ai ks ka))
