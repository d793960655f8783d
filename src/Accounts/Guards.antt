-- ===== src/Accounts/Guards.antt =====
-- Revoking and deleting codes: a revoked code is not used again, and no usable code is deleted.
use df_code_audit.Prelude.{
  ℕ, String, true, false, ◌≡◌, refl, sym, ap, subst, ◌∙◌, Option, none, some, List, [], ◌∷◌, arith,
  inl, inr, ◌⊎◌, Bool-cases,
}
use df_code_audit.Prelude.Eq.{beq, String_eq}
use df_code_audit.Prelude.Dict.{Dict, lookup, lookup-insert}
use text.Mathlib.TextEquality.{eq_iff}
use df_code_audit.Accounts.{
  InviteCode, Repo, invite_usable, invite_terminal, find_id, delete_id, delete_code, update_code,
  update_found, put,
}
use df_code_audit.Accounts.Rules.{Result, error, ok}
use df_code_audit.Accounts.Invites.{
  Mirror, Service, invite_code_by_id, by_id_found, from_mirror, revoke_found, revoke_invite_code,
  revoked, put_found, upserted, delete_found, delete_invite_code,
}
use df_code_audit.Accounts.Uses.{consumes, consumes-inactive}

-- Each record stands once, under its own code.
abbrev pub Keyed : Dict String InviteCode → Type 0
Keyed [] = Unit
Keyed ((k, r) ∷ m) = (r.code ≡ k) × (lookup k m ≡ none) × Keyed m

none-some : {r : InviteCode} → none ≡ some r → ⊥
none-some e = cc

some_eq : {r q : InviteCode} → some r ≡ some q → r ≡ q
some_eq e = cc

ok_eq : {r q : InviteCode} → ok r ≡ ok q → r ≡ q
ok_eq e = cc

clash : true ≡ false → ⊥
clash e = cc

first_found :
    (id j : String) (r : InviteCode) (m : Dict String InviteCode)
    → beq r.id id ≡ true
    → find_id id ((j, r) ∷ m) ≡ some r
unfolding find_id
first_found id j r m t = rw (t, find_id) refl

later_found :
    (id j : String) (r : InviteCode) (m : Dict String InviteCode)
    → beq r.id id ≡ false
    → find_id id ((j, r) ∷ m) ≡ find_id id m
unfolding find_id
later_found id j r m t = rw (t, find_id) refl

here :
    (code j : String) (r : InviteCode) (m : Dict String InviteCode)
    → beq j code ≡ true
    → lookup code ((j, r) ∷ m) ≡ some r
unfolding lookup
here code j r m t = rw (t, lookup) refl

there :
    (code j : String) (r : InviteCode) (m : Dict String InviteCode)
    → beq j code ≡ false
    → lookup code ((j, r) ∷ m) ≡ lookup code m
unfolding lookup
there code j r m t = rw (t, lookup) refl

apart :
    (k j : String) (m : Dict String InviteCode) (rec : InviteCode)
    → lookup k m ≡ none
    → lookup j m ≡ some rec
    → beq k j ≡ false
apart k j m rec h e = elim (Bool-cases (beq k j)) [
  | inl t ↦ absurd (none-some (sym h ∙ ap (λ i. lookup i m) ((eq_iff k j).0 t) ∙ e))
  | inr f ↦ f
]

pub find_id-lookup :
    (id : String) (m : Dict String InviteCode) (rec : InviteCode)
    → Keyed m
    → find_id id m ≡ some rec
    → lookup rec.code m ≡ some rec
unfolding find_id lookup
find_id-lookup id [] rec k e = absurd (none-some e)
find_id-lookup id ((j, r) ∷ m) rec k e = elim (Bool-cases (beq r.id id)) [
  | inl t ↦
      let same = some_eq (sym (first_found id j r m t) ∙ e) in
      subst (λ (x : InviteCode). lookup x.code ((j, r) ∷ m) ≡ some x) same
        (rw ((eq_iff j r.code).1 (sym k.0), lookup) refl)
  | inr f ↦
      let h = find_id-lookup id m rec k.2 (sym (later_found id j r m f) ∙ e) in
      rw (apart j rec.code m rec k.1 h, lookup) h
]

-- A found code that is past use is the entry that `delete_id` drops; every other one stays.
delete_id-kept :
    (id : String) (m : Dict String InviteCode) (gone rec : InviteCode) (code : String)
    → find_id id m ≡ some gone
    → lookup code m ≡ some rec
    → (lookup code (delete_id id m) ≡ some rec) ⊎ (rec ≡ gone)
unfolding find_id delete_id lookup
delete_id-kept id [] gone rec code e h = absurd (none-some e)
delete_id-kept id ((j, r) ∷ m) gone rec code e h = elim (Bool-cases (beq r.id id)) [
  | inl t ↦ elim (Bool-cases (beq j code)) [
    | inl u ↦ inr (some_eq (sym h ∙ here code j r m u) ∙ some_eq (sym (first_found id j r m t) ∙ e))
    | inr v ↦ inl (rw (t, delete_id) (sym (there code j r m v) ∙ h))
  ]
  | inr f ↦ elim (Bool-cases (beq j code)) [
    | inl u ↦ inl (rw (f, u, delete_id, lookup) (sym (here code j r m u) ∙ h))
    | inr v ↦
        elim (delete_id-kept id m gone rec code (sym (later_found id j r m f) ∙ e)
          (sym (there code j r m v) ∙ h)) [
            | inl q ↦ inl (rw (f, v, delete_id, lookup) q)
            | inr q ↦ inr q
          ]
  ]
]

module _ {M : Type 0} (mirror : Option (Mirror M)) where
  -- A code that is found by its id is in the memory.
  abbrev Held : Option InviteCode × Service M → Type 0
  Held (none, s) = Unit
  Held (some rec, s) = lookup rec.code s.repo.invites ≡ some rec

  put_found-Held : (o : Option InviteCode) (s : Service M) → Held (put_found mirror o s)
  unfolding put_found put
  put_found-Held none s = tt
  put_found-Held (some rec) s =
      lookup-insert rec.code rec.code rec s.repo.invites ∙ ground (arith, eq_iff rec.code rec.code)

  from_mirror-Held :
      (d : Option (Mirror M)) (id : String) (s : Service M) → Held (from_mirror mirror d id s)
  unfolding from_mirror
  from_mirror-Held none id s = tt
  from_mirror-Held (some d) id s = put_found-Held _ s

  by_id_found-Held :
      (o : Option InviteCode) (id : String) (s : Service M)
      → Keyed s.repo.invites
      → find_id id s.repo.invites ≡ o
      → Held (by_id_found mirror o id s)
  unfolding by_id_found
  by_id_found-Held none id s k e = from_mirror-Held mirror id s
  by_id_found-Held (some rec) id s k e = find_id-lookup id s.repo.invites rec k e

  put_held :
      (rec new : InviteCode) (m : Repo)
      → lookup rec.code m.invites ≡ some rec
      → new.code ≡ rec.code
      → lookup new.code (update_code new m).invites ≡ some new
  unfolding update_code update_found put
  put_held rec new m h e =
      rw (ap (λ c. lookup c m.invites) e ∙ h, update_found)
        (lookup-insert new.code new.code new m.invites ∙ ground (arith, eq_iff new.code new.code))

  inactive_text : (text : String) → beq text "revoked" ≡ true → beq text "active" ≡ false
  inactive_text text h =
      subst (λ t. beq t "active" ≡ false) (sym ((eq_iff text "revoked").0 h)) refl

  revoke_same :
      (now : ℕ) (r : InviteCode) (s : Service M)
      → beq r.state "revoked" ≡ true
      → revoke_found mirror now (some r, s) ≡ (ok r, s)
  unfolding revoke_found
  revoke_same now r s t = rw (t, revoke_found) refl

  abbrev written_over : ℕ → InviteCode → Service M → Service M
  written_over now r s = record s {
    repo = update_code (revoked now r) s.repo;
    db = upserted mirror mirror (revoked now r) s.db;
  }

  revoke_new :
      (now : ℕ) (r : InviteCode) (s : Service M)
      → beq r.state "revoked" ≡ false
      → revoke_found mirror now (some r, s) ≡ (ok (revoked now r), written_over now r s)
  unfolding revoke_found
  revoke_new now r s f = rw (f, revoke_found) refl

  -- What the answer says of the code, the memory holds.
  abbrev Unused : List (String × ℕ) → Result InviteCode × Service M → Type 0
  Unused attempts (error e, s) = Unit
  Unused attempts (ok rec, s) = consumes rec.code attempts s.repo ≡ (0, s.repo)

  revoke_found-Unused :
      (now : ℕ) (attempts : List (String × ℕ)) (r : Option InviteCode × Service M)
      → Held r
      → Unused attempts (revoke_found mirror now r)
  unfolding revoke_found revoked
  revoke_found-Unused now attempts (none, s) h = tt
  revoke_found-Unused now attempts (some r, s) h = elim (Bool-cases (beq r.state "revoked")) [
    | inl t ↦
        subst (λ (a : Result InviteCode × Service M). Unused attempts a)
          (sym (revoke_same now r s t))
          (consumes-inactive r.code attempts r s.repo h (inactive_text r.state t))
    | inr f ↦
        subst (λ (a : Result InviteCode × Service M). Unused attempts a)
          (sym (revoke_new now r s f))
          (consumes-inactive r.code attempts (revoked now r) (update_code (revoked now r) s.repo)
            (put_held r (revoked now r) s.repo h refl) refl)
  ]

  answered :
      (attempts : List (String × ℕ)) (rec : InviteCode) (a : Result InviteCode × Service M)
      → a.0 ≡ ok rec
      → Unused attempts a
      → consumes rec.code attempts a.1.repo ≡ (0, a.1.repo)
  answered attempts rec (error e, s) h u = cc
  answered attempts rec (ok r, s) h u =
      subst (λ (x : InviteCode). consumes x.code attempts s.repo ≡ (0, s.repo)) (ok_eq h) u

  -- Once `RevokeInviteCode` has returned a code, no attempt on it at the memory store succeeds, and the
  -- attempts change nothing, where each record of the store stands under its own code.
  pub revoke_invite_code-consumes :
      (now : ℕ) (id : String) (attempts : List (String × ℕ)) (rec : InviteCode) (s : Service M)
      → Keyed s.repo.invites
      → (revoke_invite_code mirror now id s).0 ≡ ok rec
      → let left = (revoke_invite_code mirror now id s).1.repo in
        consumes rec.code attempts left ≡ (0, left)
  unfolding revoke_invite_code invite_code_by_id
  revoke_invite_code-consumes now id attempts rec s k e =
      let r = by_id_found mirror (find_id id s.repo.invites) id s in
      answered attempts rec (revoke_found mirror now r) e (
        revoke_found-Unused now attempts r
          (by_id_found-Held (find_id id s.repo.invites) id s k refl))

module _ {M : Type 0} where
  delete_found-usable :
      (now : ℕ) (id code : String) (rec : InviteCode) (o : Option InviteCode) (s : Service M)
      → find_id id s.repo.invites ≡ o
      → lookup code s.repo.invites ≡ some rec
      → invite_usable rec now ≡ true
      → lookup code (delete_found {M = M} none now id (by_id_found none o id s)).1.repo.invites
        ≡ some rec
  unfolding delete_found by_id_found from_mirror invite_terminal delete_code
  delete_found-usable now id code rec none s e h u = h
  delete_found-usable now id code rec (some gone) s e h u =
      elim (Bool-cases (invite_usable gone now)) [
        | inl t ↦ rw (t, delete_found, invite_terminal) h
        | inr f ↦
            rw (f, delete_found, invite_terminal, delete_code)
              (elim (delete_id-kept id s.repo.invites gone rec code e h) [
                | inl q ↦ q
                | inr q ↦ absurd (clash (sym u ∙ ap (λ x. invite_usable x now) q ∙ f))
              ])
      ]

  -- Deleting by any id leaves every code of the memory store that can be used at that time.
  pub delete_invite_code-usable :
      (now : ℕ) (id code : String) (rec : InviteCode) (s : Service M)
      → lookup code s.repo.invites ≡ some rec
      → invite_usable rec now ≡ true
      → lookup code (delete_invite_code {M = M} none now id s).1.repo.invites ≡ some rec
  unfolding delete_invite_code invite_code_by_id
  delete_invite_code-usable now id code rec s h u =
      delete_found-usable now id code rec (find_id id s.repo.invites) s refl h u
