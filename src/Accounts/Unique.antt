-- ===== src/Accounts/Unique.antt =====
-- No two accounts share a name or an email.
use df_code_audit.Prelude.{
  String, Bool, false, ◌≡◌, refl, ◌∙◌, [], ◌∷◌, arith, inl, inr, Bool-cases,
}
use df_code_audit.Prelude.Eq.{beq, String_eq}
use df_code_audit.Prelude.Dict.{Dict, insert, delete}
use text.Mathlib.TextEquality.{eq_iff}
use df_code_audit.Accounts.{UserRecord, Repo, any_user, same_name, create_user, delete_user}

abbrev pub NoTwins : Dict String UserRecord → Type 0
NoTwins [] = Unit
NoTwins ((k, u) ∷ m) = (any_user (same_name u) m ≡ false) × NoTwins m

same_name_sym : (a b : UserRecord) → same_name a b ≡ same_name b a
unfolding same_name
same_name_sym a b = ground (
  arith,
  eq_iff a.user.username b.user.username,
  eq_iff b.user.username a.user.username,
  eq_iff a.user.email b.user.email,
  eq_iff b.user.email a.user.email,
)

any_user-insert :
    (p : UserRecord → Bool) (id : String) (rec : UserRecord) (m : Dict String UserRecord)
    → any_user p m ≡ false
    → p rec ≡ false
    → any_user p (insert id rec m) ≡ false
unfolding any_user insert
any_user-insert p id rec [] h q = ground (arith, q)
any_user-insert p id rec ((j, u) ∷ m) h q = elim (Bool-cases (beq j id)) [
  | inl t ↦ rw (t, insert, any_user) (ground (arith, h, q))
  | inr f ↦
      rw (f, insert, any_user) (ground (arith, h, any_user-insert p id rec m (ground (arith, h)) q))
]

any_user-delete :
    (p : UserRecord → Bool) (id : String) (m : Dict String UserRecord)
    → any_user p m ≡ false
    → any_user p (delete id m) ≡ false
unfolding any_user delete
any_user-delete p id [] h = refl
any_user-delete p id ((j, u) ∷ m) h = elim (Bool-cases (beq j id)) [
  | inl t ↦ rw (t, delete) (any_user-delete p id m (ground (arith, h)))
  | inr f ↦ rw (f, delete, any_user) (ground (arith, h, any_user-delete p id m (ground (arith, h))))
]

insert-NoTwins :
    (id : String) (rec : UserRecord) (m : Dict String UserRecord)
    → any_user (same_name rec) m ≡ false
    → NoTwins m
    → NoTwins (insert id rec m)
unfolding any_user insert
insert-NoTwins id rec [] h d = (refl, tt)
insert-NoTwins id rec ((j, u) ∷ m) h d = elim (Bool-cases (beq j id)) [
  | inl t ↦ rw (t, insert) (ground (arith, h), d.1)
  | inr f ↦
      rw (f, insert)
        (
          any_user-insert (same_name u) id rec m d.0 (same_name_sym u rec ∙ ground (arith, h)),
          insert-NoTwins id rec m (ground (arith, h)) d.1,
        )
]

delete-NoTwins : (id : String) (m : Dict String UserRecord) → NoTwins m → NoTwins (delete id m)
unfolding delete
delete-NoTwins id [] d = tt
delete-NoTwins id ((j, u) ∷ m) d = elim (Bool-cases (beq j id)) [
  | inl t ↦ rw (t, delete) (delete-NoTwins id m d.1)
  | inr f ↦ rw (f, delete) (any_user-delete (same_name u) id m d.0, delete-NoTwins id m d.1)
]

-- What the services do to the accounts when they make one: to create it, and to take it back.
pub data Change : Type 0 where
  creates : UserRecord → Change
  takes_back : String → Change

unfoldable pub changed : Change → Repo → Repo
changed (creates rec) m = (create_user rec m).1
changed (takes_back id) m = delete_user id m

-- Creating accounts, refused or not, and taking them back keep every name and every email with at most
-- one account.
pub changed-NoTwins : (c : Change) (m : Repo) → NoTwins m.users → NoTwins (changed c m).users
unfolding changed create_user delete_user
changed-NoTwins (creates rec) m d = elim (Bool-cases (any_user (same_name rec) m.users)) [
  | inl t ↦ rw (t, changed, create_user) d
  | inr f ↦ rw (f, changed, create_user) (insert-NoTwins rec.user.user_id rec m.users f d)
]
changed-NoTwins (takes_back id) m d = delete-NoTwins id m.users d
