-- ===== src/Accounts/Uses.antt =====
-- How often an invitation code is used.
use df_code_audit.Prelude.{
  ℕ, suc, ◌+◌, ◌≤◌, ◌<◌, String, Bool, true, false, ◌≡◌, refl, sym, subst, ◌∙◌, Option, some, List,
  [], ◌∷◌, if◌then◌else◌, arith, inl, inr, Bool-cases,
}
use df_code_audit.Prelude.Eq.{beq, String_eq}
use df_code_audit.Prelude.Dict.{lookup, lookup-insert}
use text.Mathlib.TextEquality.{eq_iff}
use df_code_audit.Accounts.{InviteCode, Repo, invite_usable, used, consume, consume_found}

-- Attempts by users at their times, and how many succeed.
unfoldable pub consumes : String → List (String × ℕ) → Repo → ℕ × Repo
consumes code [] m = (0, m)
consumes code ((user_id, now) ∷ rest) m =
    let (one, m1) = consume code user_id now m in
    let (n, m2) = consumes code rest m1 in (if one then suc n else n, m2)

-- A use that fails changes nothing, and one that succeeds counts the code up, and was allowed.
unfoldable Step : String → String → ℕ → InviteCode → Repo → Bool × Repo → Type 0
Step code user_id now rec m (false, m1) = lookup code m1.invites ≡ some rec
Step code user_id now rec m (true, m1) =
    (invite_usable rec now ≡ true) × (lookup code m1.invites ≡ some (used user_id now rec))

step :
    (code user_id : String) (now : ℕ) (rec : InviteCode) (m : Repo)
    → lookup code m.invites ≡ some rec
    → Step code user_id now rec m (consume_found (some rec) code user_id now m)
unfolding Step consume_found
step code user_id now rec m h = elim (Bool-cases (invite_usable rec now)) [
  | inl t ↦
      rw (t, Step, consume_found)
        (
          t,
          lookup-insert code code (used user_id now rec) m.invites
              ∙ ground (arith, eq_iff code code),
        )
  | inr f ↦ rw (f, Step, consume_found) h
]

pub usable_under :
    (rec : InviteCode) (now : ℕ)
    → invite_usable rec now ≡ true
    → 0 < rec.max_uses
    → rec.used_count < rec.max_uses
unfolding invite_usable
usable_under rec now u pos = ground (arith, u, pos)

usable_max_uses :
    (rec : InviteCode) (user_id : String) (now : ℕ) → (used user_id now rec).max_uses ≡ rec.max_uses
unfolding used
usable_max_uses rec user_id now = refl

-- What the later attempts keep for every record, they keep after one attempt.
one_counted :
    (code user_id : String) (now : ℕ) (rec : InviteCode) (m : Repo) (rest : List (String × ℕ))
    → ((r : InviteCode) (m1 : Repo)
        → lookup code m1.invites ≡ some r
        → 0 < r.max_uses
        → r.used_count ≤ r.max_uses
        → (consumes code rest m1).0 + r.used_count ≤ r.max_uses)
    → 0 < rec.max_uses
    → rec.used_count ≤ rec.max_uses
    → (one : Bool × Repo) → Step code user_id now rec m one
    → (if one.0 then suc (consumes code rest one.1).0 else (consumes code rest one.1).0)
        + rec.used_count
      ≤ rec.max_uses
unfolding Step used
one_counted code user_id now rec m rest ih pos l (false, m1) h = ih rec m1 h pos l
one_counted code user_id now rec m rest ih pos l (true, m1) h =
    omega (arith, ih (used user_id now rec) m1 h.1 pos (usable_under rec now h.0 pos))

-- However many users try a code of the memory store, at whatever times, the successful attempts and
-- the earlier uses are together no more than the code allows.
pub consumes-max_uses :
    (code : String) (attempts : List (String × ℕ)) (rec : InviteCode) (m : Repo)
    → lookup code m.invites ≡ some rec
    → 0 < rec.max_uses
    → rec.used_count ≤ rec.max_uses
    → (consumes code attempts m).0 + rec.used_count ≤ rec.max_uses
unfolding consumes consume
consumes-max_uses code [] rec m h pos l = omega (arith, l)
consumes-max_uses code ((user_id, now) ∷ rest) rec m h pos l =
    subst
      (λ (o : Option InviteCode).
        (if (consume_found o code user_id now m).0
            then suc (consumes code rest (consume_found o code user_id now m).1).0
            else (consumes code rest (consume_found o code user_id now m).1).0)
          + rec.used_count
        ≤ rec.max_uses)
      (sym h)
      (one_counted code user_id now rec m rest (λ r m1. consumes-max_uses code rest r m1) pos l
        (consume_found (some rec) code user_id now m) (step code user_id now rec m h))

unusable :
    (rec : InviteCode) (now : ℕ) → beq rec.state "active" ≡ false → invite_usable rec now ≡ false
unfolding invite_usable
unusable rec now h = rw (h, invite_usable) refl

pub consumes-inactive :
    (code : String) (attempts : List (String × ℕ)) (rec : InviteCode) (m : Repo)
    → lookup code m.invites ≡ some rec
    → beq rec.state "active" ≡ false
    → consumes code attempts m ≡ (0, m)
unfolding consumes consume consume_found
consumes-inactive code [] rec m h inactive = refl
consumes-inactive code ((user_id, now) ∷ rest) rec m h inactive =
    rw (h, consume_found, unusable rec now inactive)
      (rw (consumes-inactive code rest rec m h inactive) refl)
