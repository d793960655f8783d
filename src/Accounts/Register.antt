-- ===== src/Accounts/Register.antt =====
-- engine/services/project-service/internal/service/user_lifecycle.go: registration, and accounts made
-- by an administrator. The password hash (bcrypt) and the new ids are parameters.
use df_code_audit.Prelude.{ℕ, String, Bool, true, false, not, Option, none, some, if◌then◌else◌}
use df_code_audit.Prelude.Eq.{beq, String_eq}
use df_code_audit.Prelude.Text.{Bytes}
use df_code_audit.Accounts.{
  Role, unspecified, developer, User, UserRecord, active, Repo, create_user, delete_user,
}
use df_code_audit.Accounts.Rules.{
  invalid_argument, already_exists, failed_precondition, internal, Result, error, ok, AuthConfig,
  registration_mode, new_user_valid,
}
use df_code_audit.Accounts.Invites.{
  Mirror, Service, Written, written, unique_violation, write_error, invite_code_looks_valid,
  consume_invite_code, invite_code_role,
}

unfoldable pub new_record : String → String → String → Role → Bool → String → UserRecord
new_record user_id username email role must hash = record {
  user = record {
    user_id = user_id;
    username = username;
    email = email;
    state = active;
    role = role;
    must_change_password = must;
  };
  password = hash;
}

module _ {M : Type 0} (mirror : Option (Mirror M)) where
  -- Only a unique violation of the database is an error, and takes the user back.
  unfoldable pub after_user_upsert : UserRecord → Service M → Written × M → Result User × Service M
  after_user_upsert rec s (unique_violation, db) =
      (error already_exists, record s { repo = delete_user rec.user.user_id s.repo; db = db })
  after_user_upsert rec s (written, db) = (ok rec.user, record s { db = db })
  after_user_upsert rec s (write_error, db) = (ok rec.user, record s { db = db })

  unfoldable pub mirror_create_user :
      Option (Mirror M) → UserRecord → Service M → Result User × Service M
  unfolding after_user_upsert
  mirror_create_user none rec s = (ok rec.user, s)
  mirror_create_user (some d) rec s = after_user_upsert rec s (d.upsert_user rec s.db)

  unfoldable pub drop_user : String → Service M → Service M
  drop_user user_id s = record s { repo = delete_user user_id s.repo }

  -- After the code was consumed, or not.
  unfoldable pub after_code : UserRecord → Bool × Service M → Result User × Service M
  unfolding mirror_create_user drop_user
  after_code rec (false, s) = (error failed_precondition, drop_user rec.user.user_id s)
  after_code rec (true, s) = mirror_create_user mirror rec s

  unfoldable pub settle_code : AuthConfig → ℕ → String → UserRecord → Service M → Bool × Service M
  settle_code auth now invite_code rec s =
      if beq (registration_mode auth) "invitation"
      then consume_invite_code mirror auth now invite_code rec.user.user_id s
      else (true, s)

  unfoldable pub after_create :
      AuthConfig → ℕ → String → UserRecord → Bool × Repo → Service M → Result User × Service M
  unfolding after_code settle_code
  after_create auth now invite_code rec (false, m) s = (error already_exists, s)
  after_create auth now invite_code rec (true, m) s =
      after_code rec (settle_code auth now invite_code rec (record s { repo = m }))

  unfoldable pub with_hash :
      AuthConfig
      → ℕ
      → String
      → (String → UserRecord)
      → Option String
      → Service M
      → Result User × Service M
  unfolding after_create
  with_hash auth now invite_code made none s = (error internal, s)
  with_hash auth now invite_code made (some hash) s =
      after_create auth now invite_code (made hash) (create_user (made hash) s.repo) s

  unfoldable pub may_register : AuthConfig → ℕ → String → Service M → Bool
  may_register auth now invite_code s =
      if beq (registration_mode auth) "disabled"
      then false
      else if beq (registration_mode auth) "invitation"
      then invite_code_looks_valid mirror auth now invite_code s
      else true

  unfoldable pub register_user :
      AuthConfig
      → (Bytes → Option String)
      → ℕ
      → String
      → String
      → String
      → Bytes
      → String
      → Service M
      → Result User × Service M
  unfolding with_hash may_register new_record
  register_user auth hash now user_id username email password invite_code s =
      if not (may_register auth now invite_code s)
      then (error failed_precondition, s)
      else if not (new_user_valid username email password)
      then (error invalid_argument, s)
      else with_hash auth now invite_code
          (new_record user_id username email (invite_code_role mirror invite_code s) false)
          (hash password) s

  -- An administrator's new account: no code, and the password must be changed.
  unfoldable pub after_direct : UserRecord → Bool × Repo → Service M → Result User × Service M
  unfolding mirror_create_user
  after_direct rec (false, m) s = (error already_exists, s)
  after_direct rec (true, m) s = mirror_create_user mirror rec (record s { repo = m })

  unfoldable pub direct_with_hash :
      (String → UserRecord) → Option String → Service M → Result User × Service M
  unfolding after_direct
  direct_with_hash made none s = (error internal, s)
  direct_with_hash made (some hash) s = after_direct (made hash) (create_user (made hash) s.repo) s

  abbrev pub or_developer : Role → Role
  or_developer role = elim role [ unspecified ↦ developer | r ↦ r ]

  unfoldable pub create_account :
      (Bytes → Option String)
      → String
      → String
      → String
      → Bytes
      → Role
      → Service M
      → Result User × Service M
  unfolding direct_with_hash new_record
  create_account hash user_id username email password role s =
      if not (new_user_valid username email password)
      then (error invalid_argument, s)
      else direct_with_hash (new_record user_id username email (or_developer role) true)
          (hash password) s
