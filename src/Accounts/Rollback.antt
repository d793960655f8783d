-- ===== src/Accounts/Rollback.antt =====
-- A registration that fails leaves no account behind.
use df_code_audit.Prelude.{
  ℕ, String, Bool, true, false, ◌≡◌, refl, sym, ap, ◌∙◌, Option, none, some, [], ◌∷◌, if◌then◌else◌,
  arith, inl, inr, Bool-cases,
}
use df_code_audit.Prelude.Eq.{beq, String_eq}
use df_code_audit.Prelude.Text.{Bytes}
use df_code_audit.Prelude.Dict.{Dict, lookup, insert, delete}
use text.Mathlib.TextEquality.{eq_iff}
use df_code_audit.Accounts.{
  InviteCode, User, UserRecord, Repo, invite_usable, consume, consume_found, create_user,
  delete_user, any_user, same_name, put,
}
use df_code_audit.Accounts.Rules.{
  AuthConfig, ErrorCode, Result, error, ok, registration_mode, new_user_valid,
}
use df_code_audit.Accounts.Invites.{
  Mirror, Service, Written, written, unique_violation, write_error, consume_invite_code, consume_in,
  after_consume, consume_local, put_read, read_code,
}
use df_code_audit.Accounts.Register.{
  new_record, register_user, may_register, with_hash, after_create, settle_code, after_code,
  drop_user, mirror_create_user, after_user_upsert,
}

some-none : {r : UserRecord} → some r ≡ none → ⊥
some-none e = cc

first_user :
    (id j : String) (w : UserRecord) (m : Dict String UserRecord)
    → beq j id ≡ true
    → lookup id ((j, w) ∷ m) ≡ some w
unfolding lookup
first_user id j w m t = rw (t, lookup) refl

later_user :
    (id j : String) (w : UserRecord) (m : Dict String UserRecord)
    → beq j id ≡ false
    → lookup id ((j, w) ∷ m) ≡ lookup id m
unfolding lookup
later_user id j w m f = rw (f, lookup) refl

-- What was inserted under a new id is all that its deletion removes.
delete-insert_new :
    (id : String) (rec : UserRecord) (m : Dict String UserRecord)
    → lookup id m ≡ none
    → delete id (insert id rec m) ≡ m
unfolding lookup insert delete
delete-insert_new id rec [] h = ground (arith, eq_iff id id)
delete-insert_new id rec ((j, w) ∷ m) h = elim (Bool-cases (beq j id)) [
  | inl t ↦ absurd (some-none (sym (first_user id j w m t) ∙ h))
  | inr f ↦
      rw (f, insert, delete, f)
        (ap (λ (d : Dict String UserRecord). (j, w) ∷ d)
          (delete-insert_new id rec m (sym (later_user id j w m f) ∙ h)))
]

consume_found-users :
    (o : Option InviteCode) (code user_id : String) (now : ℕ) (m : Repo)
    → (consume_found o code user_id now m).1.users ≡ m.users
unfolding consume_found
consume_found-users none code user_id now m = refl
consume_found-users (some rec) code user_id now m = elim (Bool-cases (invite_usable rec now)) [
  | inl t ↦ rw (t, consume_found) refl
  | inr f ↦ rw (f, consume_found) refl
]

module _ {M : Type 0} (mirror : Option (Mirror M)) where
  consume_local-users :
      (auth : AuthConfig) (now : ℕ) (code user_id : String) (s : Service M)
      → (consume_local mirror auth now code user_id s).1.repo.users ≡ s.repo.users
  unfolding consume_local consume
  consume_local-users auth now code user_id s =
      consume_found-users (lookup code s.repo.invites) code user_id now s.repo

  put_read-users :
      (o : Option InviteCode) (s : Service M) → (put_read mirror o s).repo.users ≡ s.repo.users
  unfolding put_read put
  put_read-users none s = refl
  put_read-users (some rec) s = refl

  after_consume-users :
      (auth : AuthConfig) (now : ℕ) (code user_id : String) (d : Mirror M) (o : Option Bool)
      (db : M) (s : Service M)
      → (after_consume mirror auth now code user_id d (o, db) s).1.repo.users ≡ s.repo.users
  unfolding after_consume
  after_consume-users auth now code user_id d none db s =
      consume_local-users auth now code user_id (record s { db = db })
  after_consume-users auth now code user_id d (some false) db s =
      consume_local-users auth now code user_id (record s { db = db })
  after_consume-users auth now code user_id d (some true) db s =
      put_read-users (read_code mirror (some d) code db) (record s { db = db })

  consume_in-users :
      (d : Option (Mirror M)) (auth : AuthConfig) (now : ℕ) (code user_id : String) (s : Service M)
      → (consume_in mirror d auth now code user_id s).1.repo.users ≡ s.repo.users
  unfolding consume_in
  consume_in-users none auth now code user_id s = consume_local-users auth now code user_id s
  consume_in-users (some d) auth now code user_id s =
      let (o, db) = d.consume_code code user_id now s.db in
      after_consume-users auth now code user_id d o db s

  consume_invite_code-users :
      (auth : AuthConfig) (now : ℕ) (code user_id : String) (s : Service M)
      → (consume_invite_code mirror auth now code user_id s).1.repo.users ≡ s.repo.users
  unfolding consume_invite_code
  consume_invite_code-users auth now code user_id s = elim (Bool-cases (beq code "")) [
    | inl t ↦ rw (t, consume_invite_code) refl
    | inr f ↦ rw (f, consume_invite_code) (consume_in-users mirror auth now code user_id s)
  ]

  settle_code-users :
      (auth : AuthConfig) (now : ℕ) (code : String) (rec : UserRecord) (s : Service M)
      → (settle_code mirror auth now code rec s).1.repo.users ≡ s.repo.users
  unfolding settle_code
  settle_code-users auth now code rec s =
      elim (Bool-cases (beq (registration_mode auth) "invitation")) [
        | inl t ↦ rw (t, settle_code) (consume_invite_code-users auth now code rec.user.user_id s)
        | inr f ↦ rw (f, settle_code) refl
      ]

  -- An error leaves the users `m`.
  abbrev Undone : Dict String UserRecord → Result User × Service M → Type 0
  Undone m (error e, s) = s.repo.users ≡ m
  Undone m (ok u, s) = Unit

  dropped :
      (rec : UserRecord) (m : Dict String UserRecord) (users : Dict String UserRecord)
      → lookup rec.user.user_id m ≡ none
      → users ≡ insert rec.user.user_id rec m
      → delete rec.user.user_id users ≡ m
  dropped rec m users h e =
      ap (λ (d : Dict String UserRecord). delete rec.user.user_id d) e
      ∙ delete-insert_new rec.user.user_id rec m h

  after_user_upsert-Undone :
      (rec : UserRecord) (m : Dict String UserRecord) (s : Service M) (w : Written) (db : M)
      → lookup rec.user.user_id m ≡ none
      → s.repo.users ≡ insert rec.user.user_id rec m
      → Undone m (after_user_upsert mirror rec s (w, db))
  unfolding after_user_upsert delete_user
  after_user_upsert-Undone rec m s written db h e = tt
  after_user_upsert-Undone rec m s unique_violation db h e = dropped rec m s.repo.users h e
  after_user_upsert-Undone rec m s write_error db h e = tt

  mirror_create_user-Undone :
      (d : Option (Mirror M)) (rec : UserRecord) (m : Dict String UserRecord) (s : Service M)
      → lookup rec.user.user_id m ≡ none
      → s.repo.users ≡ insert rec.user.user_id rec m
      → Undone m (mirror_create_user mirror d rec s)
  unfolding mirror_create_user
  mirror_create_user-Undone none rec m s h e = tt
  mirror_create_user-Undone (some d) rec m s h e =
      let (w, db) = d.upsert_user rec s.db in after_user_upsert-Undone rec m s w db h e

  after_code-Undone :
      (rec : UserRecord) (m : Dict String UserRecord) (r : Bool × Service M)
      → lookup rec.user.user_id m ≡ none
      → r.1.repo.users ≡ insert rec.user.user_id rec m
      → Undone m (after_code mirror rec r)
  unfolding after_code drop_user delete_user
  after_code-Undone rec m (false, s) h e = dropped rec m s.repo.users h e
  after_code-Undone rec m (true, s) h e = mirror_create_user-Undone mirror rec m s h e

  created-Undone :
      (auth : AuthConfig) (now : ℕ) (code : String) (rec : UserRecord) (taken : Bool)
      (s : Service M)
      → lookup rec.user.user_id s.repo.users ≡ none
      → Undone s.repo.users (
          after_create mirror auth now code rec
            (if taken
              then (false, s.repo)
              else (true, record s.repo { users = insert rec.user.user_id rec s.repo.users }))
            s)
  unfolding after_create
  created-Undone auth now code rec true s h = refl
  created-Undone auth now code rec false s h =
      after_code-Undone rec s.repo.users
        (settle_code mirror auth now code rec
          (record s { repo = record s.repo { users = insert rec.user.user_id rec s.repo.users } }))
        h (settle_code-users auth now code rec _)

  with_hash-Undone :
      (auth : AuthConfig) (now : ℕ) (code id : String) (made : String → UserRecord)
      (o : Option String) (s : Service M)
      → ((hash : String) → (made hash).user.user_id ≡ id)
      → lookup id s.repo.users ≡ none
      → Undone s.repo.users (with_hash mirror auth now code made o s)
  unfolding with_hash create_user
  with_hash-Undone auth now code id made none s p h = refl
  with_hash-Undone auth now code id made (some hash) s p h =
      created-Undone auth now code (made hash) (any_user (same_name (made hash)) s.repo.users) s
        (ap (λ i. lookup i s.repo.users) (p hash) ∙ h)

  register_user-Undone :
      (auth : AuthConfig) (hash : Bytes → Option String) (now : ℕ) (id username email : String)
      (password : Bytes) (code : String) (s : Service M)
      → lookup id s.repo.users ≡ none
      → Undone s.repo.users (register_user mirror auth hash now id username email password code s)
  unfolding register_user new_record
  register_user-Undone auth hash now id username email password code s h =
      elim (Bool-cases (may_register mirror auth now code s)) [
        | inl t ↦ elim (Bool-cases (new_user_valid username email password)) [
          | inl u ↦
              rw (t, u, register_user)
                (with_hash-Undone auth now code id _ (hash password) s (λ x. refl) h)
          | inr v ↦ rw (t, v, register_user) refl
        ]
        | inr f ↦ rw (f, register_user) refl
      ]

  undone :
      (m : Dict String UserRecord) (r : Result User × Service M) (e : ErrorCode)
      → r.0 ≡ error e
      → Undone m r
      → r.1.repo.users ≡ m
  undone m (error x, s) e h u = u
  undone m (ok x, s) e h u = cc

  -- Whatever error a registration under a new id ends with (the policy, the fields, the hash, a name
  -- that is taken, a code that another user has used up meanwhile, a conflict in the database), the
  -- accounts of the memory store are those from before.
  pub register_user-error :
      (auth : AuthConfig) (hash : Bytes → Option String) (now : ℕ) (id username email : String)
      (password : Bytes) (code : String) (s : Service M) (e : ErrorCode)
      → lookup id s.repo.users ≡ none
      → (register_user mirror auth hash now id username email password code s).0 ≡ error e
      → (register_user mirror auth hash now id username email password code s).1.repo.users
        ≡ s.repo.users
  register_user-error auth hash now id username email password code s e fresh h =
      undone s.repo.users (register_user mirror auth hash now id username email password code s) e h
        (register_user-Undone auth hash now id username email password code s fresh)
