-- ===== src/Accounts/Invites.antt =====
-- engine/services/project-service/internal/service/invite.go: the management of invitation codes.
-- The database mirror is a parameter: an interface over a state of its own. Days have 24 hours.
-- A failed write to the mirror is only logged; the log is left out.
use df_code_audit.Prelude.{
  ℤ, pos, negsuc, ℕ, zero, suc, ◌+◌, String, Bool, true, false, ◌||◌, not, Option, none, some, List,
  [], find, ltb, if◌then◌else◌,
}
use df_code_audit.Prelude.Eq.{beq, String_eq}
use df_code_audit.Prelude.Dict.{Dict, lookup}
use df_code_audit.Accounts.{
  Role, unspecified, admin, developer, viewer, InviteCode, UserRecord, Repo, invite_usable,
  invite_terminal, put, create_code, update_code, find_id, consume, delete_code,
}
use df_code_audit.Accounts.Rules.{
  invalid_argument, not_found, failed_precondition, internal, Result, error, ok, AuthConfig,
  invite_code_valid,
}

pub data Written : Type 0 where
  written unique_violation write_error : Written

-- What the services use of the database; `none` is an error of a read.
pub record Mirror (M : Type 0) : Type 0 where
  pub upsert_code : InviteCode → M → Written × M
  pub list_codes : M → Option (List InviteCode)
  pub get_code : String → M → Option (Option InviteCode)
  pub consume_code : String → String → ℕ → M → Option Bool × M
  pub remove_code : String → M → M
  pub upsert_user : UserRecord → M → Written × M
  pub get_user : String → M → Option (Option UserRecord)
  pub get_user_by_username : String → M → Option (Option UserRecord)
  pub save_revoked_token : String → ℕ → M → M
  pub save_session_epoch : String → ℕ → M → M

-- The memory store, the database's state, the revoked access tokens with the time of the revocation,
-- and for a user the time before which refresh tokens do not count.
pub record Service (M : Type 0) : Type 0 where
  pub repo : Repo
  pub db : M
  pub revoked_tokens : Dict String ℕ
  pub sessions_invalid_before : Dict String ℕ

pub record CreateRequest : Type 0 where
  pub max_uses : ℤ
  pub has_max_uses : Bool
  pub expires_at : Option ℕ
  pub never_expires : Bool
  pub note : String
  pub created_by : String
  pub role : Role

abbrev pub invite_default_ttl : ℕ
invite_default_ttl = 2592000000000000

abbrev pub invite_retry_limit : ℕ
invite_retry_limit = 5

unfoldable pub granted_role : Role → Option Role
granted_role unspecified = some developer
granted_role developer = some developer
granted_role viewer = some viewer
granted_role admin = none

unfoldable pub granted_uses : CreateRequest → Option ℕ
granted_uses r = elim (r.max_uses) [
  | negsuc n ↦ none
  | pos n ↦ some (if r.has_max_uses then n else 1)
]

unfoldable pub expiry_of : ℕ → Bool → Option ℕ → Option (Option ℕ)
expiry_of now true (some t) = none
expiry_of now true none = some none
expiry_of now false (some t) = if ltb now t then some (some t) else none
expiry_of now false none = some (some (now + invite_default_ttl))

unfoldable pub new_code : ℕ → CreateRequest → ℕ → Role → Option ℕ → String × String → InviteCode
new_code now r uses role expiry fresh = record {
  id = fresh.0;
  code = fresh.1;
  max_uses = uses;
  used_count = 0;
  expires_at = expiry;
  state = "active";
  note = r.note;
  created_by = r.created_by;
  created_at = now;
  role = role;
  last_used_by = "";
  last_used_at = none;
  revoked_at = none;
}

unfoldable pub revoked : ℕ → InviteCode → InviteCode
revoked now rec = record rec { state = "revoked"; revoked_at = some now }

module _ {M : Type 0} (mirror : Option (Mirror M)) where
  -- How a stored code fares in the database: whether it stays, and the state after a rollback.
  unfoldable pub after_upsert : InviteCode → Service M → Written × M → Bool × Service M
  after_upsert rec s (unique_violation, db) =
      (false, record s { repo = delete_code rec.id s.repo; db = db })
  after_upsert rec s (written, db) = (true, record s { db = db })
  after_upsert rec s (write_error, db) = (true, record s { db = db })

  unfoldable pub through : Option (Mirror M) → InviteCode → Service M → Bool × Service M
  unfolding after_upsert
  through none rec s = (true, s)
  through (some d) rec s = after_upsert rec s (d.upsert_code rec s.db)

  -- One attempt to store a code.
  unfoldable pub stored : InviteCode → Bool × Repo → Service M → Bool × Service M
  unfolding through
  stored rec (false, m) s = (false, s)
  stored rec (true, m) s = through mirror rec (record s { repo = m })

  unfoldable pub attempt : InviteCode → Service M → Bool × Service M
  unfolding stored
  attempt rec s = stored rec (create_code rec s.repo) s

  -- `fresh` gives each attempt's id and code, or no entropy.
  unfoldable pub try_codes :
      ℕ
      → (ℕ → Option (String × String))
      → (String × String → InviteCode)
      → Service M
      → Result InviteCode × Service M
  unfolding attempt
  try_codes zero fresh made s = (error internal, s)
  try_codes (suc n) fresh made s = elim (fresh n) [
    | none ↦ (error internal, s)
    | some pair ↦
        let (kept, t) = attempt (made pair) s in
        let rest = try_codes n fresh made t in if kept then (ok (made pair), t) else rest
  ]

  unfoldable pub create_invite_code :
      ℕ → (ℕ → Option (String × String)) → CreateRequest → Service M → Result InviteCode × Service M
  unfolding try_codes granted_uses granted_role expiry_of new_code
  create_invite_code now fresh r s = elim (granted_uses r) [
    | none ↦ (error invalid_argument, s)
    | some uses ↦ elim (granted_role r.role) [
      | none ↦ (error invalid_argument, s)
      | some role ↦ elim (expiry_of now r.never_expires r.expires_at) [
        | none ↦ (error invalid_argument, s)
        | some expiry ↦ try_codes invite_retry_limit fresh (new_code now r uses role expiry) s
      ]
    ]
  ]

  -- The code with an id: of the memory, else of the database, and then it is put into the memory.
  unfoldable pub put_found : Option InviteCode → Service M → Option InviteCode × Service M
  put_found none s = (none, s)
  put_found (some rec) s = (some rec, record s { repo = put rec s.repo })

  unfoldable pub listed : Option (List InviteCode) → List InviteCode
  listed none = []
  listed (some all) = all

  unfoldable pub from_mirror :
      Option (Mirror M) → String → Service M → Option InviteCode × Service M
  unfolding put_found listed
  from_mirror none id s = (none, s)
  from_mirror (some d) id s = put_found (find (λ r. beq r.id id) (listed (d.list_codes s.db))) s

  unfoldable pub by_id_found :
      Option InviteCode → String → Service M → Option InviteCode × Service M
  unfolding from_mirror
  by_id_found (some rec) id s = (some rec, s)
  by_id_found none id s = from_mirror mirror id s

  unfoldable pub invite_code_by_id : String → Service M → Option InviteCode × Service M
  unfolding by_id_found
  invite_code_by_id id s = by_id_found (find_id id s.repo.invites) id s

  abbrev pub upserted : Option (Mirror M) → InviteCode → M → M
  upserted none rec db = db
  upserted (some d) rec db = (d.upsert_code rec db).1

  unfoldable pub revoke_found : ℕ → Option InviteCode × Service M → Result InviteCode × Service M
  unfolding revoked
  revoke_found now (none, s) = (error not_found, s)
  revoke_found now (some rec, s) = if beq rec.state "revoked" then (ok rec, s) else (
    ok (revoked now rec),
    record s {
      repo = update_code (revoked now rec) s.repo;
      db = upserted mirror (revoked now rec) s.db;
    },
  )

  unfoldable pub revoke_invite_code : ℕ → String → Service M → Result InviteCode × Service M
  unfolding revoke_found
  revoke_invite_code now id s = revoke_found now (invite_code_by_id id s)

  abbrev pub removed : Option (Mirror M) → String → M → M
  removed none id db = db
  removed (some d) id db = d.remove_code id db

  unfoldable pub delete_found : ℕ → String → Option InviteCode × Service M → Result Unit × Service M
  delete_found now id (none, s) = (error not_found, s)
  delete_found now id (some rec, s) =
      if not (invite_terminal rec now)
      then (error failed_precondition, s)
      else (ok tt, record s { repo = delete_code id s.repo; db = removed mirror id s.db })

  unfoldable pub delete_invite_code : ℕ → String → Service M → Result Unit × Service M
  unfolding delete_found
  delete_invite_code now id s = delete_found now id (invite_code_by_id id s)

  unfoldable pub usable : ℕ → Option InviteCode → Bool
  usable now none = false
  usable now (some rec) = invite_usable rec now

  abbrev pub read_code : Option (Mirror M) → String → M → Option InviteCode
  read_code none code db = none
  read_code (some d) code db = elim (d.get_code code db) [ none ↦ none | some o ↦ o ]

  unfoldable pub invite_code_looks_valid : AuthConfig → ℕ → String → Service M → Bool
  unfolding usable
  invite_code_looks_valid auth now code s =
      if beq code ""
      then false
      else (usable now (lookup code s.repo.invites)
          || (usable now (read_code mirror code s.db) || invite_code_valid auth code))

  -- The memory, and then the codes of the configuration.
  unfoldable pub consume_local : AuthConfig → ℕ → String → String → Service M → Bool × Service M
  consume_local auth now code user_id s =
      let (used, m) = consume code user_id now s.repo in
      (used || invite_code_valid auth code, record s { repo = m })

  unfoldable pub put_read : Option InviteCode → Service M → Service M
  put_read none s = s
  put_read (some rec) s = record s { repo = put rec s.repo }

  unfoldable pub after_consume :
      AuthConfig → ℕ → String → String → Mirror M → Option Bool × M → Service M → Bool × Service M
  unfolding consume_local put_read
  after_consume auth now code user_id d (some true, db) s =
      (true, put_read (read_code (some d) code db) (record s { db = db }))
  after_consume auth now code user_id d (some false, db) s =
      consume_local auth now code user_id (record s { db = db })
  after_consume auth now code user_id d (none, db) s =
      consume_local auth now code user_id (record s { db = db })

  unfoldable pub consume_in :
      Option (Mirror M) → AuthConfig → ℕ → String → String → Service M → Bool × Service M
  unfolding after_consume consume_local
  consume_in none auth now code user_id s = consume_local auth now code user_id s
  consume_in (some d) auth now code user_id s =
      after_consume auth now code user_id d (d.consume_code code user_id now s.db) s

  unfoldable pub consume_invite_code :
      AuthConfig → ℕ → String → String → Service M → Bool × Service M
  unfolding consume_in
  consume_invite_code auth now code user_id s =
      if beq code "" then (false, s) else consume_in mirror auth now code user_id s

  abbrev pub or_else : Option InviteCode → Option InviteCode → Option InviteCode
  or_else none o = o
  or_else (some rec) o = some rec

  unfoldable pub role_of : Option InviteCode → Role
  role_of none = developer
  role_of (some rec) = elim (rec.role) [ viewer ↦ viewer | _ ↦ developer ]

  unfoldable pub invite_code_role : String → Service M → Role
  unfolding role_of
  invite_code_role code s =
      if beq code ""
      then developer
      else role_of (or_else (read_code mirror code s.db) (lookup code s.repo.invites))
