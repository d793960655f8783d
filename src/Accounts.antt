-- ===== src/Accounts.antt =====
-- engine/services/project-service/internal/repo: the memory store of users (memory.go) and of
-- invitation codes (invite.go). A map's records are values here: code that changes a record in place
-- writes it back. Times are numbers of nanoseconds.
-- A use count is below its bound, an int32; the count of a code without a bound decides nothing, and
-- is kept without its wrap at 2^31.
pub mod Rules
pub mod Invites
pub mod Register
pub mod Logins
pub mod Passwords
pub mod Tokens
pub mod Logout
pub mod Uses
pub mod Attempts
pub mod Creation
pub mod Guards
pub mod Unique
pub mod Rollback
use df_code_audit.Prelude.{
  ℕ, suc, ◌+◌, String, Bool, true, false, ◌&&◌, ◌||◌, not, Option, none, some, List, [], ◌∷◌, any,
  leb, ltb, if◌then◌else◌, ◌==◌,
}
use df_code_audit.Prelude.Eq.{beq, String_eq}
use df_code_audit.Prelude.Dict.{Dict, lookup, insert, delete}

pub data Role : Type 0 where
  unspecified admin developer viewer : Role

pub record InviteCode : Type 0 where
  pub id : String
  pub code : String
  pub max_uses : ℕ
  pub used_count : ℕ
  pub expires_at : Option ℕ
  pub state : String
  pub note : String
  pub created_by : String
  pub created_at : ℕ
  pub role : Role
  pub last_used_by : String
  pub last_used_at : Option ℕ
  pub revoked_at : Option ℕ

pub data UserState : Type 0 where
  unspecified_state active inactive locked : UserState

pub record User : Type 0 where
  pub user_id : String
  pub username : String
  pub email : String
  pub state : UserState
  pub role : Role
  pub must_change_password : Bool

-- A user with the hash of the password.
pub record UserRecord : Type 0 where
  pub user : User
  pub password : String

pub record Repo : Type 0 where
  pub users : Dict String UserRecord
  pub invites : Dict String InviteCode

unfoldable pub is_past : Option ℕ → ℕ → Bool
is_past none now = false
is_past (some t) now = not (ltb now t)

unfoldable pub invite_usable : InviteCode → ℕ → Bool
unfolding is_past
invite_usable rec now =
    if not (beq rec.state "active")
    then false
    else if ltb 0 rec.max_uses && leb rec.max_uses rec.used_count
    then false
    else not (is_past rec.expires_at now)

unfoldable pub invite_terminal : InviteCode → ℕ → Bool
unfolding invite_usable
invite_terminal rec now = not (invite_usable rec now)

unfoldable pub put : InviteCode → Repo → Repo
put rec m = record m { invites = insert rec.code rec m.invites }

-- The code was new, or it was there.
unfoldable pub create_found : Option InviteCode → InviteCode → Repo → Bool × Repo
unfolding put
create_found (some old) rec m = (false, m)
create_found none rec m = (true, put rec m)

unfoldable pub create_code : InviteCode → Repo → Bool × Repo
unfolding create_found
create_code rec m = create_found (lookup rec.code m.invites) rec m

unfoldable pub update_found : Option InviteCode → InviteCode → Repo → Repo
unfolding put
update_found none rec m = m
update_found (some old) rec m = put rec m

unfoldable pub update_code : InviteCode → Repo → Repo
unfolding update_found
update_code rec m = update_found (lookup rec.code m.invites) rec m

unfoldable pub find_id : String → Dict String InviteCode → Option InviteCode
find_id id [] = none
find_id id ((code, rec) ∷ m) = if beq rec.id id then some rec else find_id id m

unfoldable pub used : String → ℕ → InviteCode → InviteCode
used user_id now rec = record rec {
  used_count = suc rec.used_count;
  last_used_by = user_id;
  last_used_at = some now;
}

unfoldable pub consume_found : Option InviteCode → String → String → ℕ → Repo → Bool × Repo
unfolding invite_usable used
consume_found none code user_id now m = (false, m)
consume_found (some rec) code user_id now m =
    if not (invite_usable rec now)
    then (false, m)
    else (true, record m { invites = insert code (used user_id now rec) m.invites })

unfoldable pub consume : String → String → ℕ → Repo → Bool × Repo
unfolding consume_found
consume code user_id now m = consume_found (lookup code m.invites) code user_id now m

-- The first entry with an id goes.
unfoldable pub delete_id : String → Dict String InviteCode → Dict String InviteCode
delete_id id [] = []
delete_id id ((code, rec) ∷ m) = if beq rec.id id then m else (code, rec) ∷ delete_id id m

unfoldable pub delete_code : String → Repo → Repo
unfolding delete_id
delete_code id m = record m { invites = delete_id id m.invites }

unfoldable pub same_name : UserRecord → UserRecord → Bool
same_name rec u = beq u.user.username rec.user.username || beq u.user.email rec.user.email

unfoldable pub any_user : (UserRecord → Bool) → Dict String UserRecord → Bool
any_user p [] = false
any_user p ((k, u) ∷ m) = p u || any_user p m

unfoldable pub create_user : UserRecord → Repo → Bool × Repo
unfolding any_user same_name
create_user rec m =
    if any_user (same_name rec) m.users
    then (false, m)
    else (true, record m { users = insert rec.user.user_id rec m.users })

unfoldable pub update_user : UserRecord → Repo → Repo
update_user rec m = record m { users = insert rec.user.user_id rec m.users }

unfoldable pub delete_user : String → Repo → Repo
delete_user user_id m = record m { users = delete user_id m.users }
