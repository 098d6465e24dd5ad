-- ===== src/Tests/Jwt.antt =====
-- Tokens in the clear, and a user who is signed in.
use phantom_share.Prelude.{
  ℕ, suc, zero, ◌+◌, ◌*◌, ◌/◌, ◌%◌, ◌≡◌, refl, ap, ◌∙◌, String, true, Option, none, some, [], ◌∷◌,
  ◌++◌, length, take, drop, take-append, drop-append, str_eq, arith,
}
use phantom_share.Result.{Result}
use phantom_share.Schema.{Db, UserRow}
use phantom_share.Crypto.{Bytes}
use phantom_share.Accounts.{Auth, Claims, SessionDraw}
use phantom_share.Accounts.Sessions.{TokenResponse, login}
use phantom_share.Tests.Libraries.{codes, of_codes, of_codes-codes, to_text, read, read-to_text}
use phantom_share.Tests.Tables.{value, after, one_user, request}

abbrev of_number : Option ℕ → ℕ
of_number none = 0
of_number (some n) = suc n

abbrev to_number : ℕ → Option ℕ
to_number zero = none
to_number (suc n) = some n

abbrev tag : Option String → ℕ
tag none = 0
tag (some _) = 1

abbrev text_codes : Option String → Bytes
text_codes none = []
text_codes (some s) = codes s

abbrev text_at : ℕ → Bytes → Option String
text_at zero b = none
text_at (suc _) b = of_codes b

text_at-text_codes : (o : Option String) → text_at (tag o) (text_codes o) ≡ o
text_at-text_codes none = refl
text_at-text_codes (some s) = of_codes-codes s

to_number-of_number : (o : Option ℕ) → to_number (of_number o) ≡ o
to_number-of_number none = refl
to_number-of_number (some n) = refl

unfoldable pub payload : Claims → Bytes
payload c =
    of_number c.sub
    ∷ of_number c.sid
    ∷ c.jti
    ∷ c.exp / 1000
    ∷ c.exp % 1000
    ∷ c.iat
    ∷ tag c.role
    ∷ tag c.kind
    ∷ length (text_codes c.role)
    ∷ (text_codes c.role ++ text_codes c.kind)

unfoldable pub claims_of : Bytes → Option Claims
claims_of (sub ∷ sid ∷ jti ∷ exp ∷ exp' ∷ iat ∷ role ∷ kind ∷ n ∷ rest) = some (record {
  sub = to_number sub;
  role = text_at role (take n rest);
  sid = to_number sid;
  jti = jti;
  exp = exp * 1000 + exp';
  iat = iat;
  kind = text_at kind (drop n rest);
})
claims_of _ = none

parts : (n : ℕ) → n / 1000 * 1000 + n % 1000 ≡ n
parts n = omega arith

pub claims_of-payload : (c : Claims) → claims_of (payload c) ≡ some c
unfolding payload claims_of
claims_of-payload c = rw (
  to_number-of_number c.sub,
  to_number-of_number c.sid,
  parts c.exp,
  take-append (length (text_codes c.role)) (text_codes c.role) (text_codes c.kind) refl,
  drop-append (length (text_codes c.role)) (text_codes c.role) (text_codes c.kind) refl,
  text_at-text_codes c.role,
  text_at-text_codes c.kind,
)

abbrev pub auth : Auth
auth = record {
  encode = λ c. to_text (payload c);
  decode = λ s now. claims_of (read 0 s);
  decode-encode = λ c now h. ap claims_of (read-to_text (payload c)) ∙ claims_of-payload c;
  hash_password = λ s salt. s;
  verify_password = str_eq;
  sha256_hash = λ s. s;
  is_inet = λ s. true;
  access_minutes = 1;
  refresh_days = 1;
}

abbrev pub no_tokens : TokenResponse
no_tokens = record { access_token = ""; refresh_token = ""; expires_in = 0 }

abbrev pub first : SessionDraw
first = record { session_id = 7; access_jti = 1; refresh_jti = 2 }

abbrev pub second_one : SessionDraw
second_one = record { session_id = 8; access_jti = 3; refresh_jti = 4 }

abbrev pub user_row : UserRow
user_row = record {
  id = 1;
  email = "o@x";
  username = "o";
  role = "user";
  is_active = true;
  is_verified = true;
  password_hash = "h";
  created_at = 0;
  updated_at = 0;
  delete_after = none;
}

abbrev entered : Result (TokenResponse × Db)
entered = login auth "O@x" "h" "" request first one_user

abbrev pub answer : TokenResponse
answer = value no_tokens entered

abbrev pub inside : Db
inside = after one_user entered
