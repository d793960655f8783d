-- ===== src/Examples/Accounting.antt =====
-- Tests of the accounts and their codes, and examples of their theorems. There is no database.
use df_code_audit.Prelude.{
  pos, ℕ, ◌+◌, ◌≤◌, String, true, false, ◌≡◌, refl, Option, none, some, List, [], ◌∷◌, arith,
  if◌then◌else◌, ltb,
}
use df_code_audit.Prelude.Eq.{String_eq}
use df_code_audit.Prelude.Text.{Bytes, codes}
use df_code_audit.Prelude.Dict.{lookup, insert, delete}
use df_code_audit.Accounts.{
  unspecified, developer, InviteCode, UserRecord, Repo, active, create_code, create_found, put,
  consume, consume_found, invite_usable, is_past, used, find_id, any_user, same_name, update_user,
}
use df_code_audit.Accounts.Rules.{
  AuthConfig, new_user_valid, Result, failed_precondition, registration_mode, invite_code_valid,
  email_matches, username_matches, is_name_char, is_letter, is_digit, is_space, after_at, domain_of,
  domain_matches, dot_inside, password_strong,
}
use df_code_audit.Accounts.Invites.{
  Mirror, Service, written, CreateRequest, create_invite_code, try_codes, attempt, stored, through,
  granted_uses, granted_role, expiry_of, new_code, revoke_invite_code, invite_code_by_id,
  by_id_found, revoke_found, after_consume, consume_local, consume_invite_code, consume_in,
  invite_code_looks_valid,
}
use df_code_audit.Accounts.Register.{register_user, may_register}
use df_code_audit.Accounts.Logins.{
  Claims, refresh_token, logout, get_current_user, user_by_id, user_found, refresh_claims,
}
use df_code_audit.Accounts.Passwords.{
  change_password, change_found, change_hashed, write_user, update_account, update_account_found,
  merged, kick,
}
use df_code_audit.Accounts.Tokens.{change_password-refresh_token}
use df_code_audit.Accounts.Logout.{logouts, logout-get_current_user}
use df_code_audit.Accounts.Uses.{consumes}
use df_code_audit.Accounts.Creation.{Granted, create_invite_code-Granted}
use df_code_audit.Accounts.Attempts.{tries, tries-max_uses, revoke_invite_code-tries}
use df_code_audit.Accounts.Rollback.{register_user-error}
use df_code_audit.Accounts.Unique.{NoTwins, creates, changed, changed-NoTwins}

abbrev two_uses : InviteCode
two_uses = record {
  id = "invite-1";
  code = "C";
  max_uses = 2;
  used_count = 0;
  expires_at = none;
  state = "active";
  note = "";
  created_by = "admin";
  created_at = 0;
  role = developer;
  last_used_by = "";
  last_used_at = none;
  revoked_at = none;
}

abbrev one_code : Repo
one_code = record { users = []; invites = ("C", two_uses) ∷ [] }

abbrev service : Service Unit
service = record { repo = one_code; db = tt; revoked_tokens = []; sessions_invalid_before = [] }

abbrev attempts : List (String × ℕ)
attempts = ("u", 1) ∷ ("v", 2) ∷ ("w", 3) ∷ []

consumes_test : (consumes "C" attempts one_code).0 ≡ 2
unfolding consumes consume consume_found lookup insert invite_usable is_past used
consumes_test = refl

abbrev request : CreateRequest
request = record {
  max_uses = pos 0;
  has_max_uses = false;
  expires_at = none;
  never_expires = false;
  note = "n";
  created_by = "admin";
  role = unspecified;
}

-- The first attempt meets a code that is there.
abbrev fresh : ℕ → Option (String × String)
fresh n = if ltb n 4 then some ("invite-2", "D") else some ("invite-3", "C")

unfoldable created : Result InviteCode × Service Unit
unfolding create_invite_code try_codes attempt stored through create_code create_found put lookup
    insert granted_uses granted_role expiry_of new_code
created = create_invite_code none 5 fresh request service

unfoldable created_code : InviteCode
created_code = new_code 5 request 1 developer (some 2592000000000005) ("invite-2", "D")

create_invite_code-Granted_example :
    Granted 5 request created_code
    × (lookup created_code.code
          (create_invite_code {M = Unit} none 5 fresh request service).1.repo.invites
        ≡ some created_code)
unfolding create_invite_code try_codes attempt stored through create_code create_found put lookup
    insert granted_uses granted_role expiry_of new_code created_code
create_invite_code-Granted_example =
    create_invite_code-Granted none 5 fresh request created_code service refl

abbrev auth : AuthConfig
auth = record { mode = ""; invite_codes = [] }

tries-max_uses_example : (tries auth "C" attempts service).0 + 0 ≤ 2
unfolding lookup invite_code_valid
tries-max_uses_example =
    tries-max_uses auth "C" attempts two_uses service refl refl (omega arith) (omega arith)

revoke_invite_code-tries_example :
    (tries auth "C" attempts (revoke_invite_code {M = Unit} none 7 "invite-1" service).1).0 ≡ 0
unfolding revoke_invite_code invite_code_by_id by_id_found revoke_found find_id lookup
    invite_code_valid
revoke_invite_code-tries_example =
    revoke_invite_code-tries auth 7 "invite-1" attempts
      (record two_uses { state = "revoked"; revoked_at = some 7 }) service (refl, refl, tt) refl
      refl

abbrev hashed : Bytes → Option String
hashed password = some "hash"

register_user-error_example :
    (register_user {M = Unit} none auth hashed 9 "user-1" "ann" "ann@example.org" [] "D"
      service).1.repo.users
    ≡ []
unfolding lookup register_user may_register registration_mode invite_code_looks_valid
    invite_code_valid invite_usable new_user_valid
register_user-error_example =
    register_user-error none auth hashed 9 "user-1" "ann" "ann@example.org" [] "D" service
      failed_precondition refl refl

email_test :
    (email_matches (codes "ann@example.org") ≡ true)
    × (email_matches (codes "ann@example.") ≡ false)
    × (email_matches (codes "ann@b@c.d") ≡ false)
unfolding email_matches is_space after_at domain_of domain_matches dot_inside
email_test = (refl, refl, refl)

username_test : (username_matches (codes "a_b-9") ≡ true) × (username_matches (codes "ab") ≡ false)
unfolding username_matches is_name_char is_letter is_digit
username_test = (refl, refl)

abbrev ann : UserRecord
ann = record {
  user = record {
    user_id = "user-1";
    username = "ann";
    email = "ann@example.org";
    state = active;
    role = developer;
    must_change_password = false;
  };
  password = "old";
}

abbrev bob : UserRecord
bob = record {
  user = record {
    user_id = "user-2";
    username = "bob";
    email = "bob@example.org";
    state = active;
    role = developer;
    must_change_password = false;
  };
  password = "old";
}

abbrev accounts : Service Unit
accounts = record service {
  repo = record { users = ("user-1", ann) ∷ ("user-2", bob) ∷ []; invites = [] };
}

-- "passw0rd"
abbrev strong : Bytes
strong = 112 ∷ 97 ∷ 115 ∷ 115 ∷ 119 ∷ 48 ∷ 114 ∷ 100 ∷ []

-- Every token is the refresh token of a login half a second after the change.
unfoldable parsed : ℕ → String → Option Claims
unfolding refresh_claims
parsed now token = some (refresh_claims 10800000000 ann.user)

change_password-refresh_token_example :
    let changed =
      (change_password {M = Unit} none hashed
        (λ hash p. true)
        10300000000
        "user-1"
        []
        strong
        accounts).1 in
    (refresh_token none parsed (λ c. "signed") 11000000000 "token" changed).0 ≡ none
unfolding change_password change_found change_hashed user_by_id user_found lookup password_strong
    is_letter is_digit parsed refresh_claims
change_password-refresh_token_example =
    change_password-refresh_token none parsed (λ c. "signed") hashed (λ hash p. true) 10300000000
      11000000000 10 "user-1" "token" [] strong (refresh_claims 10800000000 ann.user) accounts refl
      refl refl refl (omega arith)

logout-get_current_user_example :
    (get_current_user {M = Unit} none parsed
      (λ c. "signed")
      9
      "token"
      (logouts none parsed
        (λ c. "signed")
        ((7, "other") ∷ [])
        (logout none parsed (λ c. "signed") 5 "token" accounts))).0
    ≡ none
logout-get_current_user_example =
    logout-get_current_user none parsed (λ c. "signed") 5 9 "token" ((7, "other") ∷ []) accounts
      (omega arith, omega arith, tt)

accounts-NoTwins : NoTwins accounts.repo.users
unfolding any_user same_name
accounts-NoTwins = (refl, (refl, tt))

changed-NoTwins_example :
    NoTwins (changed (creates (record bob { password = "new" })) accounts.repo).users
changed-NoTwins_example =
    changed-NoTwins (creates (record bob { password = "new" })) accounts.repo accounts-NoTwins

-- An update may give an account the name of another one.
update_twins_test :
    let updated =
      (update_account {M = Unit} none 5
        (record bob.user { username = "ann"; email = "" })
        accounts).1 in
    any_user (same_name ann) (delete "user-1" updated.repo.users) ≡ true
unfolding update_account update_account_found merged kick write_user update_user user_by_id
    user_found lookup insert delete any_user same_name
update_twins_test = refl

-- A database that refuses every use and knows nothing else.
abbrev refusing : Mirror Unit
refusing = record {
  upsert_code = λ rec db. (written, db);
  list_codes = λ db. none;
  get_code = λ code db. none;
  consume_code = λ code user_id now db. (some false, db);
  remove_code = λ id db. db;
  upsert_user = λ rec db. (written, db);
  get_user = λ id db. none;
  get_user_by_username = λ name db. none;
  save_revoked_token = λ token at db. db;
  save_session_epoch = λ id at db. db;
}

-- The database refuses a use, and the copy of the code in the memory allows it.
refused_but_used_test : (consume_invite_code (some refusing) auth 5 "C" "user-9" service).0 ≡ true
unfolding consume_invite_code consume_in after_consume consume_local consume consume_found lookup
    invite_usable is_past
refused_but_used_test = refl
