-- ===== src/Authz/Batch.antt =====
-- The batch is decided as its findings one by one.
use df_code_audit.Prelude.{
  String, true, false, ◌≡◌, refl, sym, subst, Option, none, some, List, [], ◌∷◌, if◌then◌else◌,
  arith, inl, inr, Bool-cases,
}
use df_code_audit.Prelude.Eq.{beq, String_eq, contains}
use text.Mathlib.TextEquality.{eq_iff}
use df_code_audit.Authz.{
  Caller, Lookup, Denial, is_admin, can_access_task_via_finding, or_rest, check_ids,
  can_batch_verdict,
}

clash : false ≡ true → ⊥
clash h = cc

module _ (get_task get_finding get_report : String → Lookup String) where
  -- Each finding asked in its turn, with nothing remembered.
  unfoldable pub one_by_one : Caller → List String → Option Denial
  one_by_one c [] = none
  one_by_one c (id ∷ ids) =
      let rest = one_by_one c ids in
      if beq id ""
      then rest
      else or_rest get_task get_finding get_report
          (can_access_task_via_finding get_task get_finding get_report c id) rest

  Allowed : Caller → List String → Type 0
  Allowed c seen =
      (id : String)
      → contains id seen ≡ true
      → can_access_task_via_finding get_task get_finding get_report c id ≡ none

  added-Allowed :
      (c : Caller) (id : String) (seen : List String)
      → can_access_task_via_finding get_task get_finding get_report c id ≡ none
      → Allowed c seen
      → Allowed c (id ∷ seen)
  unfolding Allowed
  added-Allowed c id seen h a j there = elim (Bool-cases (beq id j)) [
    | inl t ↦
        subst (λ k. can_access_task_via_finding get_task get_finding get_report c k ≡ none)
          ((eq_iff id j).0 t) h
    | inr f ↦ a j (ground (arith, there, f))
  ]

  asked :
      (c : Caller) (id : String) (ids seen : List String) (o : Option Denial)
      → can_access_task_via_finding get_task get_finding get_report c id ≡ o
      → Allowed c seen
      → ((s : List String)
          → Allowed c s
          → check_ids get_task get_finding get_report c s ids ≡ one_by_one c ids)
      → or_rest get_task get_finding get_report o
          (check_ids get_task get_finding get_report c (id ∷ seen) ids)
        ≡ or_rest get_task get_finding get_report o (one_by_one c ids)
  asked c id ids seen (some d) h a k = refl
  asked c id ids seen none h a k = k (id ∷ seen) (added-Allowed c id seen h a)

  check_ids-one_by_one :
      (c : Caller) (ids seen : List String)
      → Allowed c seen
      → check_ids get_task get_finding get_report c seen ids ≡ one_by_one c ids
  unfolding check_ids one_by_one Allowed
  check_ids-one_by_one c [] seen a = refl
  check_ids-one_by_one c (id ∷ ids) seen a = elim (Bool-cases (beq id "")) [
    | inl t ↦ rw (t, check_ids, one_by_one) (check_ids-one_by_one c ids seen a)
    | inr f ↦ elim (Bool-cases (contains id seen)) [
      | inl u ↦ rw (f, u, a id u, check_ids, one_by_one) (check_ids-one_by_one c ids seen a)
      | inr v ↦
          rw (f, v, check_ids, one_by_one)
            (asked c id ids seen _ refl a (λ s b. check_ids-one_by_one c ids s b))
    ]
  ]

  admin_allowed : (c : Caller) (ids : List String) → is_admin c ≡ true → one_by_one c ids ≡ none
  unfolding one_by_one can_access_task_via_finding
  admin_allowed c [] t = refl
  admin_allowed c (id ∷ ids) t = elim (Bool-cases (beq id "")) [
    | inl u ↦ rw (u, one_by_one) (admin_allowed c ids t)
    | inr v ↦ rw (v, one_by_one, can_access_task_via_finding, t) (admin_allowed c ids t)
  ]

  -- The answer for a batch, which asks no finding twice, is that for its findings asked one by one: it
  -- is allowed exactly if each finding with an id is, and refused as the first one that is refused.
  pub can_batch_verdict-one_by_one :
      (c : Caller) (ids : List String)
      → can_batch_verdict get_task get_finding get_report c ids ≡ one_by_one c ids
  unfolding can_batch_verdict Allowed
  can_batch_verdict-one_by_one c ids = elim (Bool-cases (is_admin c)) [
    | inl t ↦ rw (t, can_batch_verdict) (sym (admin_allowed c ids t))
    | inr f ↦ rw (f, can_batch_verdict) (check_ids-one_by_one c ids [] (λ id h. absurd (clash h)))
  ]
