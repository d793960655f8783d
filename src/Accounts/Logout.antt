-- ===== src/Accounts/Logout.antt =====
-- A token that was logged out stays revoked while it could be used.
use df_code_audit.Prelude.{
  ℕ, ◌-◌, ◌≤◌, String, true, false, ◌≡◌, refl, sym, subst, ◌∙◌, Option, none, some, List, [], ◌∷◌,
  ltb, arith, inl, inr, Bool-cases,
}
use df_code_audit.Prelude.Eq.{beq, String_eq}
use df_code_audit.Prelude.Dict.{Dict, lookup, insert, lookup-insert}
use text.Mathlib.TextEquality.{eq_iff}
use df_code_audit.Accounts.Invites.{Mirror, Service}
use df_code_audit.Accounts.Logins.{
  Claims, revoked_kept, sweep_old, is_known, is_revoked, logout, logout_user, get_current_user,
}

-- The token is kept with a time that is not before `t`.
abbrev pub RevokedSince : ℕ → String → Dict String ℕ → Type 0
RevokedSince t token m = (at : ℕ) × (lookup token m ≡ some at) × (t ≤ at)

late : (now at t : ℕ) → t ≤ at → now - t ≤ revoked_kept → ltb revoked_kept (now - at) ≡ false
late now at t l h = ground (arith, l, h)

sweep_old-lookup :
    (limit now : ℕ) (k : String) (at : ℕ) (m : Dict String ℕ)
    → ltb limit (now - at) ≡ false
    → lookup k m ≡ some at
    → lookup k (sweep_old limit now m) ≡ some at
unfolding sweep_old lookup
sweep_old-lookup limit now k at [] l h = h
sweep_old-lookup limit now k at ((j, b) ∷ m) l h =
    ground (arith, sweep_old-lookup limit now k at m l, l, h)

insert-RevokedSince :
    (t now : ℕ) (token other : String) (m : Dict String ℕ)
    → t ≤ now
    → RevokedSince t token m
    → RevokedSince t token (insert other now m)
insert-RevokedSince t now token other m l (at, h, g) = elim (Bool-cases (beq other token)) [
  | inl u ↦ (now, lookup-insert other token now m ∙ rw u refl, l)
  | inr v ↦ (at, lookup-insert other token now m ∙ rw v h, g)
]

swept-RevokedSince :
    (t now : ℕ) (token : String) (m : Dict String ℕ)
    → now - t ≤ revoked_kept
    → RevokedSince t token m
    → RevokedSince t token (sweep_old revoked_kept now m)
swept-RevokedSince t now token m l (at, h, g) =
    (at, sweep_old-lookup revoked_kept now token at m (late now at t g l) h, g)

module _ {M : Type 0} (mirror : Option (Mirror M)) where
  module _ (parse : ℕ → String → Option Claims) (sign : Claims → String) where
    logout_user-tokens :
        (now : ℕ) (o : Option String) (s : Service M)
        → (logout_user mirror parse sign now o s).revoked_tokens ≡ s.revoked_tokens
    unfolding logout_user
    logout_user-tokens now none s = refl
    logout_user-tokens now (some id) s = refl

    logout_tokens :
        (now : ℕ) (token : String) (s : Service M)
        → (logout mirror parse sign now token s).revoked_tokens
          ≡ sweep_old revoked_kept now (insert token now s.revoked_tokens)
    unfolding logout
    logout_tokens now token s = logout_user-tokens now _ _

    -- Logouts of any users one after the other, each with its time.
    unfoldable pub logouts : List (ℕ × String) → Service M → Service M
    logouts [] s = s
    logouts ((now, token) ∷ rest) s = logouts rest (logout mirror parse sign now token s)

    -- The times lie between a time and the end of its 24 hours.
    abbrev pub Within : ℕ → List (ℕ × String) → Type 0
    Within t [] = Unit
    Within t ((now, token) ∷ rest) = (t ≤ now) × (now - t ≤ revoked_kept) × Within t rest

    logouts-RevokedSince :
        (t : ℕ) (token : String) (rest : List (ℕ × String)) (s : Service M)
        → Within t rest
        → RevokedSince t token s.revoked_tokens
        → RevokedSince t token (logouts rest s).revoked_tokens
    unfolding logouts
    logouts-RevokedSince t token [] s w r = r
    logouts-RevokedSince t token ((now, other) ∷ rest) s w r =
        logouts-RevokedSince t token rest _ w.2 (
          subst (λ (m : Dict String ℕ). RevokedSince t token m) (sym (logout_tokens now other s))
            (swept-RevokedSince t now token _ w.1 (insert-RevokedSince t now token other _ w.0 r)))

    known :
        (t : ℕ) (token : String) (s : Service M)
        → RevokedSince t token s.revoked_tokens
        → is_revoked mirror token s ≡ true
    unfolding is_revoked is_known
    known t token s (at, h, g) = rw (h, is_known) refl

    refused :
        (now : ℕ) (token : String) (s : Service M)
        → is_revoked mirror token s ≡ true
        → (get_current_user mirror parse sign now token s).0 ≡ none
    unfolding get_current_user
    refused now token s h = rw (h, get_current_user) refl

    -- A token that has been logged out does not identify a user again, whatever logouts follow in the
    -- 24 hours for which it is remembered; an access token lives 30 minutes.
    pub logout-get_current_user :
        (t now : ℕ) (token : String) (rest : List (ℕ × String)) (s : Service M)
        → Within t rest
        → (get_current_user mirror parse sign now token
            (logouts rest (logout mirror parse sign t token s))).0
          ≡ none
    logout-get_current_user t now token rest s w =
        let first =
          subst (λ (m : Dict String ℕ). RevokedSince t token m) (sym (logout_tokens t token s))
            (swept-RevokedSince t t token _ (omega arith) (
              t,
              lookup-insert token token t s.revoked_tokens ∙ ground (arith, eq_iff token token),
              omega arith,
            )) in
        let before = logout mirror parse sign t token s in
        refused now token (logouts rest before)
          (known t token (logouts rest before) (logouts-RevokedSince t token rest before w first))
