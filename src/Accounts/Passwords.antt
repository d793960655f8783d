-- ===== src/Accounts/Passwords.antt =====
-- engine/services/project-service/internal/service/user_lifecycle.go (ChangePassword, ResetPassword)
-- and user.go (UpdateUser): the changes of an account that end its sessions.
-- A user's time of creation, which only lists read, is left out.
use df_code_audit.Prelude.{ℕ, String, Bool, true, false, not, Option, none, some, if◌then◌else◌}
use df_code_audit.Prelude.Eq.{beq, String_eq}
use df_code_audit.Prelude.Text.{Bytes}
use df_code_audit.Accounts.{
  Role, unspecified, User, UserRecord, UserState, unspecified_state, active, update_user,
}
use df_code_audit.Accounts.Rules.{
  invalid_argument, not_found, unauthenticated, internal, Result, error, ok, password_strong,
}
use df_code_audit.Accounts.Invites.{Mirror, Service}
use df_code_audit.Accounts.Logins.{invalidate_sessions, user_by_id}

unfoldable pub with_password : Bool → UserRecord → String → UserRecord
with_password must rec hash = record {
  user = record rec.user { must_change_password = must };
  password = hash;
}

abbrev pub or_text : String → String → String
or_text text old = if beq text "" then old else text

abbrev pub or_role : Role → Role → Role
or_role unspecified old = old
or_role role old = role

abbrev pub or_state : UserState → UserState → UserState
or_state unspecified_state old = old
or_state state old = state

-- What an update leaves of the old user: the fields that it does not set, and the password's flag.
unfoldable pub merged : User → User → User
merged u old = record {
  user_id = u.user_id;
  username = or_text u.username old.username;
  email = or_text u.email old.email;
  state = or_state u.state old.state;
  role = or_role u.role old.role;
  must_change_password = old.must_change_password;
}

abbrev pub is_active : UserState → Bool
is_active active = true
is_active state = false

module _ {M : Type 0} (mirror : Option (Mirror M)) where
  abbrev pub upserted_user : Option (Mirror M) → UserRecord → M → M
  upserted_user none rec db = db
  upserted_user (some d) rec db = (d.upsert_user rec db).1

  unfoldable pub write_user : UserRecord → Service M → Service M
  write_user rec s = record s { repo = update_user rec s.repo; db = upserted_user mirror rec s.db }

  unfoldable pub set_password : ℕ → String → Bool → UserRecord → String → Service M → Service M
  unfolding write_user with_password
  set_password now user_id must rec hash s =
      invalidate_sessions mirror now user_id (write_user (with_password must rec hash) s)

  unfoldable pub change_hashed :
      ℕ → String → UserRecord → Option String → Service M → Result Unit × Service M
  unfolding set_password
  change_hashed now user_id rec none s = (error internal, s)
  change_hashed now user_id rec (some hash) s = (ok tt, set_password now user_id false rec hash s)

  unfoldable pub change_found :
      (Bytes → Option String)
      → (String → Bytes → Bool)
      → ℕ
      → String
      → Bytes
      → Bytes
      → Option UserRecord × Service M
      → Result Unit × Service M
  unfolding change_hashed
  change_found hash matches now user_id old_password new_password (none, s) = (error not_found, s)
  change_found hash matches now user_id old_password new_password (some rec, s) =
      if not (matches rec.password old_password)
      then (error unauthenticated, s)
      else if not (password_strong new_password)
      then (error invalid_argument, s)
      else change_hashed now user_id rec (hash new_password) s

  unfoldable pub change_password :
      (Bytes → Option String)
      → (String → Bytes → Bool)
      → ℕ
      → String
      → Bytes
      → Bytes
      → Service M
      → Result Unit × Service M
  unfolding change_found
  change_password hash matches now user_id old_password new_password s =
      change_found hash matches now user_id old_password new_password (user_by_id mirror user_id s)

  unfoldable pub reset_hashed :
      ℕ → String → UserRecord → Bytes → Option String → Service M → Result Bytes × Service M
  unfolding set_password
  reset_hashed now user_id rec temp none s = (error internal, s)
  reset_hashed now user_id rec temp (some hash) s =
      (ok temp, set_password now user_id true rec hash s)

  -- The temporary password, or none where the system has no entropy.
  unfoldable pub reset_found :
      (Bytes → Option String)
      → Option Bytes
      → ℕ
      → String
      → Option UserRecord × Service M
      → Result Bytes × Service M
  unfolding reset_hashed
  reset_found hash temp now user_id (none, s) = (error not_found, s)
  reset_found hash none now user_id (some rec, s) = (error internal, s)
  reset_found hash (some temp) now user_id (some rec, s) =
      reset_hashed now user_id rec temp (hash temp) s

  unfoldable pub reset_password :
      (Bytes → Option String) → Option Bytes → ℕ → String → Service M → Result Bytes × Service M
  unfolding reset_found
  reset_password hash temp now user_id s =
      reset_found hash temp now user_id (user_by_id mirror user_id s)

  unfoldable pub kick : ℕ → User → Service M → Service M
  kick now u s = if not (is_active u.state) then invalidate_sessions mirror now u.user_id s else s

  unfoldable pub update_account_found :
      ℕ → User → Option UserRecord × Service M → Option User × Service M
  unfolding kick write_user merged
  update_account_found now u (none, s) = (none, s)
  update_account_found now u (some rec, s) =
      let v = merged u rec.user in (some v, kick now v (write_user (record rec { user = v }) s))

  unfoldable pub update_account : ℕ → User → Service M → Option User × Service M
  unfolding update_account_found
  update_account now u s = update_account_found now u (user_by_id mirror u.user_id s)
