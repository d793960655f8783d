-- ===== src/Accounts/Tokens.antt =====
-- What a change of a password, a logout and a disabled account do to tokens.
use df_code_audit.Prelude.{
  ℕ, ◌*◌, ◌<◌, String, Bool, true, false, ◌≡◌, refl, sym, ap, subst, ◌∙◌, Option, none, some, ltb,
  arith, inl, inr, Bool-cases,
}
use df_code_audit.Prelude.Eq.{beq, String_eq}
use df_code_audit.Prelude.Text.{Bytes}
use df_code_audit.Prelude.Dict.{Dict, lookup, lookup-insert}
use text.Mathlib.TextEquality.{eq_iff}
use df_code_audit.Accounts.{UserRecord}
use df_code_audit.Accounts.Rules.{Result, error, ok, password_strong}
use df_code_audit.Accounts.Invites.{Mirror, Service}
use df_code_audit.Accounts.Logins.{
  Claims, second, invalidate_sessions, is_before, session_invalidated, refresh_found,
  refresh_claimed, refresh_token, user_by_id, user_found, user_from_mirror, put_user,
}
use df_code_audit.Accounts.Passwords.{
  set_password, write_user, with_password, change_hashed, change_found, change_password,
}

some_eq : {m n : ℕ} → some m ≡ some n → m ≡ n
some_eq e = cc

earlier : {i j t : ℕ} → j ≡ i → i * second < t → ltb (j * second) t ≡ true
earlier e l = ground (arith, e, l)

module _ {M : Type 0} (mirror : Option (Mirror M)) where
  put_user-epochs :
      (o : Option UserRecord) (s : Service M)
      → (put_user mirror o s).1.sessions_invalid_before ≡ s.sessions_invalid_before
  unfolding put_user
  put_user-epochs none s = refl
  put_user-epochs (some rec) s = refl

  from_mirror_epochs :
      (d : Option (Mirror M)) (id : String) (s : Service M)
      → (user_from_mirror mirror d id s).1.sessions_invalid_before ≡ s.sessions_invalid_before
  unfolding user_from_mirror
  from_mirror_epochs none id s = refl
  from_mirror_epochs (some d) id s = put_user-epochs _ s

  user_found-epochs :
      (o : Option UserRecord) (id : String) (s : Service M)
      → (user_found mirror o id s).1.sessions_invalid_before ≡ s.sessions_invalid_before
  unfolding user_found user_from_mirror
  user_found-epochs (some rec) id s = refl
  user_found-epochs none id s = from_mirror_epochs mirror id s

  invalidated :
      (now : ℕ) (id : String) (s : Service M)
      → lookup id (invalidate_sessions mirror now id s).sessions_invalid_before ≡ some now
  unfolding invalidate_sessions
  invalidated now id s =
      lookup-insert id id now s.sessions_invalid_before ∙ ground (arith, eq_iff id id)

  -- Where the change succeeds, it has set the user's time.
  abbrev Ended : {A : Type 0} → ℕ → String → Result A × Service M → Type 0
  Ended now id (error e, s) = Unit
  Ended now id (ok a, s) = lookup id s.sessions_invalid_before ≡ some now

  change_hashed-Ended :
      (now : ℕ) (id : String) (rec : UserRecord) (hash : Option String) (s : Service M)
      → Ended now id (change_hashed mirror now id rec hash s)
  unfolding change_hashed set_password
  change_hashed-Ended now id rec none s = tt
  change_hashed-Ended now id rec (some hash) s =
      invalidated now id (write_user mirror (with_password false rec hash) s)

  change_found-Ended :
      (hash : Bytes → Option String) (matches : String → Bytes → Bool) (now : ℕ) (id : String)
      (old new : Bytes) (o : Option UserRecord) (s : Service M)
      → Ended now id (change_found mirror hash matches now id old new (o, s))
  unfolding change_found
  change_found-Ended hash matches now id old new none s = tt
  change_found-Ended hash matches now id old new (some rec) s =
      elim (Bool-cases (matches rec.password old)) [
        | inl t ↦ elim (Bool-cases (password_strong new)) [
          | inl u ↦ rw (t, u, change_found) (change_hashed-Ended now id rec (hash new) s)
          | inr v ↦ rw (t, v, change_found) tt
        ]
        | inr f ↦ rw (f, change_found) tt
      ]

  ended :
      {A : Type 0} (now : ℕ) (id : String) (a : A) (r : Result A × Service M)
      → r.0 ≡ ok a
      → Ended now id r
      → lookup id r.1.sessions_invalid_before ≡ some now
  ended now id a (error e, s) h d = cc
  ended now id a (ok b, s) h d = d

  user_by_id-epochs :
      (id : String) (s : Service M)
      → (user_by_id mirror id s).1.sessions_invalid_before ≡ s.sessions_invalid_before
  unfolding user_by_id
  user_by_id-epochs id s = user_found-epochs (lookup id s.repo.users) id s

  refresh_found-none :
      (parse : ℕ → String → Option Claims) (sign : Claims → String) (now : ℕ) (c : Claims)
      (r : Option UserRecord × Service M)
      → session_invalidated mirror c.sub c.iat r.1 ≡ true
      → (refresh_found mirror parse sign now c r).0 ≡ none
  unfolding refresh_found
  refresh_found-none parse sign now c (none, s) h = refl
  refresh_found-none parse sign now c (some rec, s) h = rw (h, refresh_found) refl

  invalidated_iat :
      (iat : Option ℕ) (i t : ℕ) (id : String) (s : Service M)
      → iat ≡ some i
      → i * second < t
      → lookup id s.sessions_invalid_before ≡ some t
      → session_invalidated mirror id iat s ≡ true
  unfolding session_invalidated is_before
  invalidated_iat none i t id s e l h = cc
  invalidated_iat (some j) i t id s e l h =
      rw (h, session_invalidated, is_before) (earlier (some_eq e) l)

  pub refresh_claimed-ended :
      (parse : ℕ → String → Option Claims) (sign : Claims → String) (now : ℕ) (c : Claims) (i t : ℕ)
      (s : Service M)
      → c.iat ≡ some i
      → i * second < t
      → lookup c.sub s.sessions_invalid_before ≡ some t
      → (refresh_claimed mirror parse sign now (some c) s).0 ≡ none
  unfolding refresh_claimed
  refresh_claimed-ended parse sign now c i t s e l h = elim (Bool-cases (beq c.kind "refresh")) [
    | inl u ↦
        rw (u, refresh_claimed)
          (refresh_found-none parse sign now c (user_by_id mirror c.sub s) (
            invalidated_iat c.iat i t c.sub _ e l
              (ap (λ (m : Dict String ℕ). lookup c.sub m) (user_by_id-epochs c.sub s) ∙ h)))
    | inr v ↦ rw (v, refresh_claimed) refl
  ]

  -- After a successful change of a user's password, no refresh token of that user whose time of issue,
  -- in whole seconds, lies before the change gets new tokens. That includes a token of a login after the
  -- change in the same second.
  pub change_password-refresh_token :
      (parse : ℕ → String → Option Claims) (sign : Claims → String) (hash : Bytes → Option String)
      (matches : String → Bytes → Bool) (t now i : ℕ) (id token : String) (old new : Bytes)
      (c : Claims) (s : Service M)
      → (change_password mirror hash matches t id old new s).0 ≡ ok tt
      → parse now token ≡ some c
      → c.sub ≡ id
      → c.iat ≡ some i
      → i * second < t
      → let changed = (change_password mirror hash matches t id old new s).1 in
        (refresh_token mirror parse sign now token changed).0 ≡ none
  unfolding change_password refresh_token
  change_password-refresh_token parse sign hash matches t now i id token old new c s h p q e l =
      let (rec, u) = user_by_id mirror id s in
      let r = change_found mirror hash matches t id old new (rec, u) in
      ap (λ (o : Option Claims). (refresh_claimed mirror parse sign now o r.1).0) p
      ∙ refresh_claimed-ended parse sign now c i t r.1 e l (
          subst (λ j. lookup j r.1.sessions_invalid_before ≡ some t) (sym q)
            (ended t id tt r h (change_found-Ended hash matches t id old new rec u)))
