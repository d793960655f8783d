-- ===== src/Accounts/Rules.antt =====
-- engine/services/project-service/internal/service/user_lifecycle.go: the registration policy and
-- the checks of a new account. Texts are lists of character codes; a password is one of bytes.
use df_code_audit.Prelude.{
  ℕ, String, Bool, false, ◌&&◌, ◌||◌, not, Option, none, some, List, [], ◌∷◌, any, all, leb, ltb,
  if◌then◌else◌, ◌==◌, length,
}
use df_code_audit.Prelude.Eq.{beq, String_eq}
use df_code_audit.Prelude.Text.{Bytes, codes}

-- The gRPC status codes in use; the messages are left out.
pub data ErrorCode : Type 0 where
  invalid_argument not_found already_exists failed_precondition unauthenticated internal : ErrorCode

pub data Result (A : Type 0) : Type 0 where
  error : ErrorCode → Result A
  ok : A → Result A

pub record AuthConfig : Type 0 where
  pub mode : String
  pub invite_codes : List String

unfoldable pub registration_mode : AuthConfig → String
registration_mode auth = if beq auth.mode "" then "invitation" else auth.mode

unfoldable pub invite_code_valid : AuthConfig → String → Bool
invite_code_valid auth code = any (λ c. not (beq c "") && beq c code) auth.invite_codes

abbrev pub min_password_len : ℕ
min_password_len = 8

abbrev pub max_password_len : ℕ
max_password_len = 64

abbrev pub in_range : ℕ → ℕ → ℕ → Bool
in_range low high c = leb low c && leb c high

unfoldable pub is_letter : ℕ → Bool
is_letter c = in_range 97 122 c || in_range 65 90 c

unfoldable pub is_digit : ℕ → Bool
is_digit c = in_range 48 57 c

unfoldable pub is_name_char : ℕ → Bool
unfolding is_letter is_digit
is_name_char c = is_letter c || is_digit c || c == 95 || c == 45

-- `^[a-zA-Z0-9_-]{3,32}$`
unfoldable pub username_matches : List ℕ → Bool
unfolding is_name_char
username_matches name = in_range 3 32 (length name) && all is_name_char name

unfoldable pub is_space : ℕ → Bool
is_space c = c == 32 || c == 9 || c == 10 || c == 12 || c == 13

-- A dot with a character after it.
unfoldable pub dot_inside : List ℕ → Bool
dot_inside [] = false
dot_inside (c ∷ []) = false
dot_inside (c ∷ d ∷ rest) = c == 46 || dot_inside (d ∷ rest)

unfoldable pub domain_matches : List ℕ → Bool
unfolding dot_inside
domain_matches [] = false
domain_matches (c ∷ rest) = all (λ d. not (d == 64)) (c ∷ rest) && dot_inside rest

unfoldable pub after_at : List ℕ → Option (List ℕ)
after_at [] = none
after_at (c ∷ rest) = if c == 64 then some rest else after_at rest

unfoldable pub domain_of : Option (List ℕ) → Bool
unfolding domain_matches
domain_of none = false
domain_of (some domain) = domain_matches domain

-- `^[^@\s]+@[^@\s]+\.[^@\s]+$`
unfoldable pub email_matches : List ℕ → Bool
unfolding is_space after_at domain_of
email_matches [] = false
email_matches (c ∷ rest) =
    not (c == 64) && (all (λ d. not (is_space d)) (c ∷ rest) && domain_of (after_at rest))

unfoldable pub password_strong : Bytes → Bool
unfolding is_letter is_digit
password_strong password =
    if ltb (length password) min_password_len || ltb max_password_len (length password)
    then false
    else any is_letter password && any is_digit password

unfoldable pub new_user_valid : String → String → Bytes → Bool
unfolding username_matches email_matches password_strong
new_user_valid username email password =
    username_matches (codes username) && (email_matches (codes email) && password_strong password)
