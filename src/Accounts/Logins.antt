-- ===== src/Accounts/Logins.antt =====
-- engine/services/project-service/internal/service/user.go and the passwords of user_lifecycle.go:
-- logins, tokens, sessions and the change of an account. Signing and parsing of tokens (JWT, with the
-- check of the signature and of the expiry), the password hash (bcrypt), its comparison and the
-- temporary passwords are parameters. A token's times are in seconds, the others in nanoseconds.
use df_code_audit.Prelude.{
  ℕ, ◌+◌, ◌-◌, ◌*◌, ◌/◌, String, Bool, true, false, not, Option, none, some, [], ◌∷◌, ltb,
  if◌then◌else◌,
}
use df_code_audit.Prelude.Eq.{beq, String_eq}
use df_code_audit.Prelude.Text.{Bytes}
use df_code_audit.Prelude.Dict.{Dict, lookup, insert}
use df_code_audit.Accounts.{Role, unspecified, User, UserRecord, active, update_user}
use df_code_audit.Accounts.Invites.{Mirror, Service}

pub record Claims : Type 0 where
  pub sub : String
  pub username : String
  pub role : Role
  pub exp : ℕ
  pub iat : Option ℕ
  pub kind : String

pub record Tokens : Type 0 where
  pub access : String
  pub refresh : String

abbrev pub second : ℕ
second = 1000000000

-- 30 minutes and 7 days, in seconds
abbrev pub access_expiry : ℕ
access_expiry = 1800

abbrev pub refresh_expiry : ℕ
refresh_expiry = 604800

-- 24 hours and 8 days
abbrev pub revoked_kept : ℕ
revoked_kept = 86400000000000

abbrev pub epochs_kept : ℕ
epochs_kept = 691200000000000

unfoldable pub access_claims : ℕ → User → Claims
access_claims now u = record {
  sub = u.user_id;
  username = u.username;
  role = u.role;
  exp = now / second + access_expiry;
  iat = some (now / second);
  kind = "access";
}

-- A refresh token has no name and no role.
unfoldable pub refresh_claims : ℕ → User → Claims
refresh_claims now u = record {
  sub = u.user_id;
  username = "";
  role = unspecified;
  exp = now / second + refresh_expiry;
  iat = some (now / second);
  kind = "refresh";
}

-- Entries older than a limit go.
unfoldable pub sweep_old : ℕ → ℕ → Dict String ℕ → Dict String ℕ
sweep_old limit now [] = []
sweep_old limit now ((k, at) ∷ m) =
    if ltb limit (now - at) then sweep_old limit now m else (k, at) ∷ sweep_old limit now m

module _ {M : Type 0} (mirror : Option (Mirror M)) where
  unfoldable pub put_user : Option UserRecord → Service M → Option UserRecord × Service M
  put_user none s = (none, s)
  put_user (some rec) s = (some rec, record s { repo = update_user rec s.repo })

  abbrev pub or_none : Option (Option UserRecord) → Option UserRecord
  or_none none = none
  or_none (some o) = o

  unfoldable pub user_from_mirror :
      Option (Mirror M) → String → Service M → Option UserRecord × Service M
  unfolding put_user
  user_from_mirror none id s = (none, s)
  user_from_mirror (some d) id s = put_user (or_none (d.get_user id s.db)) s

  unfoldable pub user_found : Option UserRecord → String → Service M → Option UserRecord × Service M
  unfolding user_from_mirror
  user_found (some rec) id s = (some rec, s)
  user_found none id s = user_from_mirror mirror id s

  unfoldable pub user_by_id : String → Service M → Option UserRecord × Service M
  unfolding user_found
  user_by_id id s = user_found (lookup id s.repo.users) id s

  unfoldable pub named : String → Dict String UserRecord → Option UserRecord
  named username [] = none
  named username ((id, rec) ∷ m) =
      if beq rec.user.username username then some rec else named username m

  unfoldable pub name_from_mirror :
      Option (Mirror M) → String → Service M → Option UserRecord × Service M
  unfolding put_user
  name_from_mirror none username s = (none, s)
  name_from_mirror (some d) username s = put_user (or_none (d.get_user_by_username username s.db)) s

  unfoldable pub name_found : Option UserRecord → String → Service M → Option UserRecord × Service M
  unfolding name_from_mirror
  name_found (some rec) username s = (some rec, s)
  name_found none username s = name_from_mirror mirror username s

  unfoldable pub user_by_username : String → Service M → Option UserRecord × Service M
  unfolding name_found named
  user_by_username username s = name_found (named username s.repo.users) username s

  abbrev pub saved_epoch : Option (Mirror M) → String → ℕ → M → M
  saved_epoch none id now db = db
  saved_epoch (some d) id now db = d.save_session_epoch id now db

  abbrev pub saved_token : Option (Mirror M) → String → ℕ → M → M
  saved_token none token now db = db
  saved_token (some d) token now db = d.save_revoked_token token now db

  unfoldable pub invalidate_sessions : ℕ → String → Service M → Service M
  invalidate_sessions now id s = record s {
    sessions_invalid_before = insert id now s.sessions_invalid_before;
    db = saved_epoch mirror id now s.db;
  }

  -- `iat.Before(epoch)`
  unfoldable pub is_before : ℕ → Option ℕ → Bool
  is_before iat none = false
  is_before iat (some epoch) = ltb iat epoch

  unfoldable pub session_invalidated : String → Option ℕ → Service M → Bool
  unfolding is_before
  session_invalidated id none s = false
  session_invalidated id (some iat) s =
      is_before (iat * second) (lookup id s.sessions_invalid_before)

  unfoldable pub is_known : Option ℕ → Bool
  is_known none = false
  is_known (some at) = true

  unfoldable pub is_revoked : String → Service M → Bool
  unfolding is_known
  is_revoked token s = is_known (lookup token s.revoked_tokens)

  -- `parse` gives the claims of a token that is signed and has not expired.
  module _ (parse : ℕ → String → Option Claims) (sign : Claims → String) where
    unfoldable pub token_pair : ℕ → User → Tokens
    unfolding access_claims refresh_claims
    token_pair now u = record {
      access = sign (access_claims now u);
      refresh = sign (refresh_claims now u);
    }

    unfoldable pub login_found :
        (String → Bytes → Bool)
        → ℕ
        → Bytes
        → Option UserRecord × Service M
        → Option Tokens × Service M
    unfolding token_pair
    login_found matches now password (none, s) = (none, s)
    login_found matches now password (some rec, s) =
        if not (matches rec.password password)
        then (none, s)
        else elim (rec.user.state) [ active ↦ (some (token_pair now rec.user), s) | _ ↦ (none, s) ]

    unfoldable pub login :
        (String → Bytes → Bool) → ℕ → String → Bytes → Service M → Option Tokens × Service M
    unfolding login_found
    login matches now username password s =
        login_found matches now password (user_by_username username s)

    unfoldable pub claims_user : String → Option Claims → Option String
    claims_user kind none = none
    claims_user kind (some c) = if beq c.kind kind then some c.sub else none

    unfoldable pub extract_user_id : ℕ → String → Option String
    unfolding claims_user
    extract_user_id now token = claims_user "access" (parse now token)

    unfoldable pub logout_user : ℕ → Option String → Service M → Service M
    logout_user now none s = s
    logout_user now (some id) s = record s {
      sessions_invalid_before = sweep_old epochs_kept now (insert id now s.sessions_invalid_before);
      db = saved_epoch mirror id now s.db;
    }

    unfoldable pub logout : ℕ → String → Service M → Service M
    unfolding logout_user
    logout now token s = logout_user now (extract_user_id now token) (record s {
      revoked_tokens = sweep_old revoked_kept now (insert token now s.revoked_tokens);
      db = saved_token mirror token now s.db;
    })

    unfoldable pub refresh_found :
        ℕ → Claims → Option UserRecord × Service M → Option Tokens × Service M
    unfolding token_pair session_invalidated
    refresh_found now c (none, s) = (none, s)
    refresh_found now c (some rec, s) =
        if session_invalidated c.sub c.iat s then (none, s) else (some (token_pair now rec.user), s)

    unfoldable pub refresh_claimed : ℕ → Option Claims → Service M → Option Tokens × Service M
    unfolding refresh_found
    refresh_claimed now none s = (none, s)
    refresh_claimed now (some c) s =
        if not (beq c.kind "refresh") then (none, s) else refresh_found now c (user_by_id c.sub s)

    unfoldable pub refresh_token : ℕ → String → Service M → Option Tokens × Service M
    unfolding refresh_claimed
    refresh_token now token s = refresh_claimed now (parse now token) s

    unfoldable pub current_user : Option String → Service M → Option UserRecord × Service M
    current_user none s = (none, s)
    current_user (some id) s = user_by_id id s

    unfoldable pub get_current_user : ℕ → String → Service M → Option UserRecord × Service M
    unfolding current_user
    get_current_user now token s =
        if is_revoked token s then (none, s) else current_user (extract_user_id now token) s
