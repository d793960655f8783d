-- ===== src/Segments/Broadcast.antt =====
-- The verdicts of a group.
use df_code_audit.Prelude.{◌≡◌, refl, List, [], ◌∷◌, map, inl, inr, Bool-cases, All}
use df_code_audit.Prelude.Eq.{beq, String_eq}
use text.Mathlib.TextEquality.{eq_iff}
use df_code_audit.Segments.{Located, VerifiedFinding, broadcast_group_verdict}

-- If the verdict is that of the representative, the broadcast has one verdict for each member, in their
-- order and under their ids, and each has its direction and confidence.
pub broadcast_group_verdict_lem :
    {C E : Type 0} (base : VerifiedFinding C E) (rep : Located) (members : List Located)
    → base.original_finding_id ≡ rep.id
    → (map
          (λ (v : VerifiedFinding C E). v.original_finding_id)
          (broadcast_group_verdict base rep members)
        ≡ map (λ (m : Located). m.id) members)
      × All
          (λ (v : VerifiedFinding C E).
            (v.direction ≡ base.direction) × (v.confidence ≡ base.confidence))
          (broadcast_group_verdict base rep members)
unfolding broadcast_group_verdict
broadcast_group_verdict_lem base rep [] e = (refl, tt)
broadcast_group_verdict_lem base rep (m ∷ ms) e =
    let (same, each) = broadcast_group_verdict_lem base rep ms e in
    elim (Bool-cases (beq m.id rep.id)) [
      | inl t ↦
          rw (t, broadcast_group_verdict, same, e, (eq_iff m.id rep.id).0 t)
            (refl, ((refl, refl), each))
      | inr t ↦ rw (t, broadcast_group_verdict, same) (refl, ((refl, refl), each))
    ]
