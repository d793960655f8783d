-- ===== src/Accounts/Creation.antt =====
-- New invitation codes.
use df_code_audit.Prelude.{
  pos, ℕ, zero, suc, String, Bool, true, false, ◌≡◌, ◌≢◌, refl, sym, subst, ◌∙◌, Option, none, some,
  if◌then◌else◌, arith, inl, inr, Bool-cases, Option-cases, ltb,
}
use df_code_audit.Prelude.Eq.{String_eq}
use df_code_audit.Prelude.Dict.{lookup, lookup-insert}
use text.Mathlib.TextEquality.{eq_iff}
use df_code_audit.Accounts.{
  Role, unspecified, admin, developer, viewer, InviteCode, invite_usable, is_past, create_code,
  create_found, put,
}
use df_code_audit.Accounts.Rules.{Result, error, ok}
use df_code_audit.Accounts.Invites.{
  Mirror, Service, Written, written, unique_violation, write_error, after_upsert, through, stored,
  attempt, try_codes, create_invite_code, CreateRequest, granted_uses, granted_role, expiry_of,
  new_code, invite_retry_limit,
}

-- What a new code has: it can be used now and has not been, for no more uses than asked for and once
-- where nothing was asked, and it makes no administrator.
pub record Granted (now : ℕ) (r : CreateRequest) (rec : InviteCode) : Type 0 where
  pub usable : invite_usable rec now ≡ true
  pub unused : rec.used_count ≡ 0
  pub uses : (n : ℕ) → r.max_uses ≡ pos n → rec.max_uses ≡ (if r.has_max_uses then n else 1)
  pub no_admin : rec.role ≢ admin

some_eq : {A : Type 0} {a b : A} → some a ≡ some b → a ≡ b
some_eq e = cc

none-some : {A : Type 0} {a : A} → none ≡ some a → ⊥
none-some e = cc

developer_admin : developer ≡ admin → ⊥
developer_admin e = cc

viewer_admin : viewer ≡ admin → ⊥
viewer_admin e = cc

soon : (now t : ℕ) → ltb now t ≡ true → expiry_of now false (some t) ≡ some (some t)
unfolding expiry_of
soon now t u = rw (u, expiry_of) refl

late : (now t : ℕ) → ltb now t ≡ false → expiry_of now false (some t) ≡ none
unfolding expiry_of
late now t u = rw (u, expiry_of) refl

expiry_of-future :
    (now : ℕ) (never : Bool) (o e : Option ℕ)
    → expiry_of now never o ≡ some e
    → is_past e now ≡ false
unfolding expiry_of is_past
expiry_of-future now true (some t) e h = cc
expiry_of-future now true none e h =
    subst (λ (x : Option ℕ). is_past x now ≡ false) (some_eq h) refl
expiry_of-future now false (some t) e h = elim (Bool-cases (ltb now t)) [
  | inl u ↦
      subst (λ (x : Option ℕ). is_past x now ≡ false) (some_eq (sym (soon now t u) ∙ h))
        (ground (arith, u))
  | inr f ↦ absurd (none-some (sym (late now t f) ∙ h))
]
expiry_of-future now false none e h =
    subst (λ (x : Option ℕ). is_past x now ≡ false) (some_eq h) (ground arith)

granted_role-admin : (role granted : Role) → granted_role role ≡ some granted → granted ≢ admin
unfolding granted_role
granted_role-admin unspecified granted h e = developer_admin (some_eq h ∙ e)
granted_role-admin developer granted h e = developer_admin (some_eq h ∙ e)
granted_role-admin viewer granted h e = viewer_admin (some_eq h ∙ e)
granted_role-admin admin granted h e = none-some h

new_code-usable :
    (now : ℕ) (r : CreateRequest) (uses : ℕ) (role : Role) (expiry : Option ℕ)
    (pair : String × String)
    → is_past expiry now ≡ false
    → invite_usable (new_code now r uses role expiry pair) now ≡ true
unfolding invite_usable new_code
new_code-usable now r uses role expiry pair h = ground (arith, h)

ok_eq : {r q : InviteCode} → ok r ≡ ok q → r ≡ q
ok_eq e = cc

uses_of :
    (r : CreateRequest) (n uses : ℕ)
    → r.max_uses ≡ pos n
    → granted_uses r ≡ some uses
    → uses ≡ (if r.has_max_uses then n else 1)
unfolding granted_uses
uses_of r n uses q u = some_eq (sym u ∙ rw (q, granted_uses) refl)

module _ {M : Type 0} (mirror : Option (Mirror M)) where
  -- A code that was kept is in the memory.
  abbrev Kept : InviteCode → Bool × Service M → Type 0
  Kept rec (false, s) = Unit
  Kept rec (true, s) = lookup rec.code s.repo.invites ≡ some rec

  after_upsert-Kept :
      (rec : InviteCode) (s : Service M) (w : Written) (db : M)
      → lookup rec.code s.repo.invites ≡ some rec
      → Kept rec (after_upsert mirror rec s (w, db))
  unfolding after_upsert
  after_upsert-Kept rec s written db h = h
  after_upsert-Kept rec s unique_violation db h = tt
  after_upsert-Kept rec s write_error db h = h

  through-Kept :
      (d : Option (Mirror M)) (rec : InviteCode) (s : Service M)
      → lookup rec.code s.repo.invites ≡ some rec
      → Kept rec (through mirror d rec s)
  unfolding through
  through-Kept none rec s h = h
  through-Kept (some d) rec s h =
      let (w, db) = d.upsert_code rec s.db in after_upsert-Kept rec s w db h

  stored-Kept :
      (o : Option InviteCode) (rec : InviteCode) (s : Service M)
      → Kept rec (stored mirror rec (create_found o rec s.repo) s)
  unfolding stored create_found put
  stored-Kept (some old) rec s = tt
  stored-Kept none rec s = through-Kept mirror rec _ (
      lookup-insert rec.code rec.code rec s.repo.invites ∙ ground (arith, eq_iff rec.code rec.code))

  attempt-Kept : (rec : InviteCode) (s : Service M) → Kept rec (attempt mirror rec s)
  unfolding attempt create_code
  attempt-Kept rec s = stored-Kept (lookup rec.code s.repo.invites) rec s

  abbrev Made : (InviteCode → Type 0) → Result InviteCode × Service M → Type 0
  Made P (error e, s) = Unit
  Made P (ok rec, s) = P rec × (lookup rec.code s.repo.invites ≡ some rec)

  -- One attempt, and the result of the others.
  chosen-Made :
      (P : InviteCode → Type 0) (rec : InviteCode) (one : Bool × Service M)
      (rest : Result InviteCode × Service M)
      → P rec
      → Kept rec one
      → Made P rest
      → Made P (if one.0 then (ok rec, one.1) else rest)
  chosen-Made P rec (true, t) rest p k m = (p, k)
  chosen-Made P rec (false, t) rest p k m = m

  try_codes-Made :
      (P : InviteCode → Type 0) (n : ℕ) (fresh : ℕ → Option (String × String))
      (made : String × String → InviteCode) (s : Service M)
      → ((pair : String × String) → P (made pair))
      → Made P (try_codes mirror n fresh made s)
  unfolding try_codes
  try_codes-Made P zero fresh made s p = tt
  try_codes-Made P (suc n) fresh made s p = elim (Option-cases (fresh n)) [
    | inl e ↦ rw (e, try_codes) tt
    | inr (pair, e) ↦
        rw (e, try_codes)
          (chosen-Made P (made pair) (attempt mirror (made pair) s) _ (p pair)
            (attempt-Kept (made pair) s)
            (try_codes-Made P n fresh made (attempt mirror (made pair) s).1 p))
  ]

  answer_found :
      (P : InviteCode → Type 0) (rec : InviteCode) (a : Result InviteCode × Service M)
      → a.0 ≡ ok rec
      → Made P a
      → P rec × (lookup rec.code a.1.repo.invites ≡ some rec)
  answer_found P rec (error e, s) h m = cc
  answer_found P rec (ok r, s) h m =
      subst (λ (x : InviteCode). P x × (lookup x.code s.repo.invites ≡ some x)) (ok_eq h) m

  granted :
      (now : ℕ) (r : CreateRequest) (uses : ℕ) (role : Role) (expiry : Option ℕ)
      → granted_uses r ≡ some uses
      → granted_role r.role ≡ some role
      → expiry_of now r.never_expires r.expires_at ≡ some expiry
      → (pair : String × String) → Granted now r (new_code now r uses role expiry pair)
  unfolding new_code
  granted now r uses role expiry u o e pair = record {
    usable = new_code-usable now r uses role expiry pair (expiry_of-future now _ _ expiry e);
    unused = refl;
    uses = λ n q. uses_of r n uses q u;
    no_admin = granted_role-admin r.role role o;
  }

  create_invite_code-Made :
      (now : ℕ) (fresh : ℕ → Option (String × String)) (r : CreateRequest) (s : Service M)
      → Made (Granted now r) (create_invite_code mirror now fresh r s)
  unfolding create_invite_code
  create_invite_code-Made now fresh r s = elim (Option-cases (granted_uses r)) [
    | inl a ↦ rw (a, create_invite_code) tt
    | inr (uses, a) ↦ elim (Option-cases (granted_role r.role)) [
      | inl b ↦ rw (a, b, create_invite_code) tt
      | inr (role, b) ↦ elim (Option-cases (expiry_of now r.never_expires r.expires_at)) [
        | inl c ↦ rw (a, b, c, create_invite_code) tt
        | inr (expiry, c) ↦
            rw (a, b, c, create_invite_code)
              (try_codes-Made (Granted now r) invite_retry_limit fresh
                (new_code now r uses role expiry) s (granted now r uses role expiry a b c))
      ]
    ]
  ]

  -- A code that `CreateInviteCode` returns is in the memory store under itself, can be used at that time
  -- and has not been used, allows as many uses as were asked for or one, and makes no administrator.
  pub create_invite_code-Granted :
      (now : ℕ) (fresh : ℕ → Option (String × String)) (r : CreateRequest) (rec : InviteCode)
      (s : Service M)
      → (create_invite_code mirror now fresh r s).0 ≡ ok rec
      → Granted now r rec
        × (lookup rec.code (create_invite_code mirror now fresh r s).1.repo.invites ≡ some rec)
  create_invite_code-Granted now fresh r rec s h =
      answer_found (Granted now r) rec (create_invite_code mirror now fresh r s) h
        (create_invite_code-Made now fresh r s)

-- Without a mirror an attempt that fails has changed nothing.
abbrev Same : {M : Type 0} → Service M → Bool × Service M → Type 0
Same s (false, t) = t ≡ s
Same s (true, t) = Unit

stored-Same :
    {M : Type 0} (o : Option InviteCode) (rec : InviteCode) (s : Service M)
    → Same s (stored {M = M} none rec (create_found o rec s.repo) s)
unfolding stored create_found through
stored-Same (some old) rec s = refl
stored-Same none rec s = tt

abbrev Failed : {M : Type 0} → Service M → Result InviteCode × Service M → Type 0
Failed s (error e, t) = t ≡ s
Failed s (ok rec, t) = Unit

chosen-Failed :
    {M : Type 0} (s : Service M) (rec : InviteCode) (one : Bool × Service M)
    (rest : Service M → Result InviteCode × Service M)
    → Same s one
    → ((t : Service M) → Failed t (rest t))
    → Failed s (if one.0 then (ok rec, one.1) else rest one.1)
chosen-Failed s rec (true, t) rest a f = tt
chosen-Failed s rec (false, t) rest a f = subst (λ x. Failed x (rest t)) a (f t)

try_codes-Failed :
    {M : Type 0} (n : ℕ) (fresh : ℕ → Option (String × String))
    (made : String × String → InviteCode) (s : Service M)
    → Failed s (try_codes {M = M} none n fresh made s)
unfolding try_codes attempt create_code
try_codes-Failed zero fresh made s = refl
try_codes-Failed (suc n) fresh made s = elim (Option-cases (fresh n)) [
  | inl e ↦ rw (e, try_codes) refl
  | inr (pair, e) ↦
      rw (e, try_codes)
        (chosen-Failed s (made pair) (attempt none (made pair) s) (try_codes none n fresh made)
          (stored-Same (lookup (made pair).code s.repo.invites) (made pair) s)
          (try_codes-Failed n fresh made))
]

create_invite_code-Failed :
    {M : Type 0} (now : ℕ) (fresh : ℕ → Option (String × String)) (r : CreateRequest)
    (s : Service M)
    → Failed s (create_invite_code {M = M} none now fresh r s)
unfolding create_invite_code
create_invite_code-Failed now fresh r s = elim (Option-cases (granted_uses r)) [
  | inl a ↦ rw (a, create_invite_code) refl
  | inr (uses, a) ↦ elim (Option-cases (granted_role r.role)) [
    | inl b ↦ rw (a, b, create_invite_code) refl
    | inr (role, b) ↦ elim (Option-cases (expiry_of now r.never_expires r.expires_at)) [
      | inl c ↦ rw (a, b, c, create_invite_code) refl
      | inr (expiry, c) ↦
          rw (a, b, c, create_invite_code)
            (try_codes-Failed invite_retry_limit fresh (new_code now r uses role expiry) s)
    ]
  ]
]
