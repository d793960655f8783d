-- ===== src/Accounts/Attempts.antt =====
-- engine/services/project-service/internal/service/invite.go: attempts on a code through the service, where
-- it has no database.
use df_code_audit.Prelude.{
  ℕ, suc, ◌+◌, ◌≤◌, ◌<◌, String, true, false, ◌≡◌, refl, ap, ◌∙◌, none, some, List, [], ◌∷◌,
  if◌then◌else◌, arith, inl, inr, Bool-cases,
}
use df_code_audit.Prelude.Eq.{beq, String_eq}
use df_code_audit.Prelude.Dict.{lookup}
use df_code_audit.Accounts.{InviteCode, Repo, consume}
use df_code_audit.Accounts.Rules.{AuthConfig, invite_code_valid, ok}
use df_code_audit.Accounts.Invites.{
  Service, consume_invite_code, consume_in, consume_local, revoke_invite_code,
}
use df_code_audit.Accounts.Uses.{consumes, consumes-max_uses}
use df_code_audit.Accounts.Guards.{Keyed, revoke_invite_code-consumes}

module _ {M : Type 0} (auth : AuthConfig) where
  -- Attempts by users at their times, and how many succeed.
  unfoldable pub tries : String → List (String × ℕ) → Service M → ℕ × Service M
  tries code [] s = (0, s)
  tries code ((user_id, now) ∷ rest) s =
      let (one, s1) = consume_invite_code {M = M} none auth now code user_id s in
      let (n, s2) = tries code rest s1 in (if one then suc n else n, s2)

  -- A code that the configuration does not have is the memory store's alone.
  local :
      (now : ℕ) (code user_id : String) (s : Service M)
      → beq code "" ≡ false
      → invite_code_valid auth code ≡ false
      → ((consume_invite_code {M = M} none auth now code user_id s).0
          ≡ (consume code user_id now s.repo).0)
        × ((consume_invite_code {M = M} none auth now code user_id s).1
            ≡ record s { repo = (consume code user_id now s.repo).1 })
  unfolding consume_invite_code consume_in consume_local
  local now code user_id s f h = rw (f, consume_invite_code, h) (ground arith, refl)

  tries-consumes :
      (code : String) (attempts : List (String × ℕ)) (s : Service M)
      → beq code "" ≡ false
      → invite_code_valid auth code ≡ false
      → (tries code attempts s).0 ≡ (consumes code attempts s.repo).0
  unfolding tries consumes
  tries-consumes code [] s f h = refl
  tries-consumes code ((user_id, now) ∷ rest) s f h =
      let l = local now code user_id s f h in
      rw (l.0, l.1)
        (ap (λ n. if (consume code user_id now s.repo).0 then suc n else n)
          (tries-consumes code rest (record s { repo = (consume code user_id now s.repo).1 }) f h))

  tries_empty :
      (code : String) (attempts : List (String × ℕ)) (s : Service M)
      → beq code "" ≡ true
      → (tries code attempts s).0 ≡ 0
  unfolding tries consume_invite_code
  tries_empty code [] s t = refl
  tries_empty code ((user_id, now) ∷ rest) s t =
      rw (t, consume_invite_code) (tries_empty code rest s t)

  -- Without a database, and for a code that the configuration does not have: however many users try a code
  -- through the service, at whatever times, the successful attempts and the earlier uses are together no
  -- more than the code allows.
  pub tries-max_uses :
      (code : String) (attempts : List (String × ℕ)) (rec : InviteCode) (s : Service M)
      → invite_code_valid auth code ≡ false
      → lookup code s.repo.invites ≡ some rec
      → 0 < rec.max_uses
      → rec.used_count ≤ rec.max_uses
      → (tries code attempts s).0 + rec.used_count ≤ rec.max_uses
  tries-max_uses code attempts rec s h e pos l = elim (Bool-cases (beq code "")) [
    | inl t ↦ omega (arith, tries_empty code attempts s t, l)
    | inr f ↦ omega (
      arith,
      tries-consumes code attempts s f h,
      consumes-max_uses code attempts rec s.repo e pos l,
    )
  ]

  -- Without a database, once `RevokeInviteCode` has returned a code that the configuration does not have, no
  -- attempt on it through the service succeeds, where each record of the store stands under its own code.
  pub revoke_invite_code-tries :
      (now : ℕ) (id : String) (attempts : List (String × ℕ)) (rec : InviteCode) (s : Service M)
      → Keyed s.repo.invites
      → (revoke_invite_code {M = M} none now id s).0 ≡ ok rec
      → invite_code_valid auth rec.code ≡ false
      → (tries rec.code attempts (revoke_invite_code {M = M} none now id s).1).0 ≡ 0
  revoke_invite_code-tries now id attempts rec s k e h =
      let left = (revoke_invite_code {M = M} none now id s).1 in
      elim (Bool-cases (beq rec.code "")) [
        | inl t ↦ tries_empty rec.code attempts left t
        | inr f ↦
            tries-consumes rec.code attempts left f h
            ∙ ap (λ (r : ℕ × Repo). r.0)
                (revoke_invite_code-consumes none now id attempts rec s k e)
      ]
