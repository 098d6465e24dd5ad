-- ===== src/Tests/Signin.antt =====
-- Accounts: a JWT that is a list of numbers, and one user who signs in.
use phantom_share.Prelude.{
  ◌≡◌, refl, String, true, false, Option, none, some, [], ◌∷◌, str_eq, eq_iff, arith,
}
use phantom_share.Result.{Result, ok, err}
use phantom_share.Sql.{select_one, count}
use phantom_share.Schema.{Db, user_is}
use phantom_share.Accounts.{Auth, Claims, SessionDraw, bearer, get_current_user}
use phantom_share.Accounts.Sessions.{
  TokenResponse, session_is, login, refresh_token_endpoint, logout, new_session,
}
use phantom_share.Accounts.Verification.{request_email_verification, confirm_email_verification}
use phantom_share.Accounts.Codes.{confirm-request}
use phantom_share.Accounts.Login.{login-get_current_user}
use phantom_share.Accounts.Rotation.{Unauthorized, refresh_token_endpoint-once}
use phantom_share.Accounts.Logout.{}
use phantom_share.Tests.Cleaning.{false-ne-true}
use phantom_share.Tests.Libraries.{codes, of_codes, of_codes-codes, to_text, read, read-to_text}
use phantom_share.Tests.Tables.{value, after, owner, one_user, request}
use phantom_share.Tests.Jwt.{
  payload, claims_of, auth, no_tokens, first, second_one, user_row, answer, inside,
}

login-get_current_user_example :
    (str_eq "h" "h" ≡ true)
    × (get_current_user auth (some answer.access_token) 2000000 inside ≡ ok owner)
unfolding select_one phantom_share.Text.ci_eq login phantom_share.Sql.exists
login-get_current_user_example =
    login-get_current_user auth "O@x" "h" "" request first 2000000 one_user {row = user_row}
      {r = answer} {db' = inside} refl refl (omega arith) (omega arith) refl

abbrev renewed : Result (TokenResponse × Db)
renewed = refresh_token_endpoint auth answer.refresh_token "" request second_one (λ d. d) inside

refresh_token_endpoint-once_example : Unauthorized (
    refresh_token_endpoint auth answer.refresh_token "" request first
      (λ d. d)
      (after inside renewed))
unfolding login refresh_token_endpoint logout get_current_user claims_of payload read to_text codes
    of_codes select_one count phantom_share.Text.ci_eq phantom_share.Text.same_codes
    phantom_share.Text.upper phantom_share.Sql.exists phantom_share.Sql.insert
    phantom_share.Sql.delete phantom_share.Audit.log phantom_share.Audit.insert_entry
    phantom_share.Accounts.create_refresh_token phantom_share.Accounts.create_access_token
    phantom_share.Accounts.decode_token phantom_share.Accounts.find_bearer
    phantom_share.Accounts.Sessions.check_login phantom_share.Accounts.Sessions.check_refresh
    phantom_share.Accounts.Sessions.insert_session phantom_share.Accounts.Sessions.open_session
    phantom_share.Accounts.Sessions.revoke phantom_share.Accounts.Sessions.rotate
    phantom_share.Tests.Libraries.unary
refresh_token_endpoint-once_example =
    refresh_token_endpoint-once auth answer.refresh_token "" "" request request second_one first
      inside {r = value no_tokens renewed} {db' = after inside renewed}
      (λ e.
        false-ne-true ((eq_iff (value no_tokens renewed).refresh_token answer.refresh_token).1 e))
      refl

abbrev or_self : Db → Result Db → Db
or_self db (ok db') = db'
or_self db (err _) = db

abbrev outside : Db
outside = or_self inside (logout auth answer.refresh_token 2000000 inside)

abbrev no_claims : Claims
no_claims = record { sub = none; role = none; sid = none; jti = 0; exp = 0; iat = 0; kind = none }

abbrev or_no_claims : Option Claims → Claims
or_no_claims none = no_claims
or_no_claims (some c) = c

abbrev read_claims : String → Claims
read_claims s = or_no_claims (auth.decode s 2000000)

abbrev unverified : Db
unverified = record one_user { users = record user_row { is_verified = false } ∷ [] }

abbrev mailed : Result (Option (String × String) × Db)
mailed = request_email_verification auth owner "c" (λ _. true) 1000000 unverified

abbrev challenged : Db
challenged = after unverified mailed

abbrev mail : String × String
mail = ("o@x", "c")

confirm-request_example :
    (mail ≡ (user_row.email, "c"))
    × (db : Db) × (confirm_email_verification auth owner mail.1 2000000 challenged ≡ ok db)
    × (select_one (user_is 1) db.users ≡ some (record user_row { updated_at = 2000000 }))
unfolding select_one request_email_verification
confirm-request_example =
    confirm-request auth owner "c" (λ _. true) 1000000 2000000 unverified
      {u = record user_row { is_verified = false }} {mail = mail} {db' = challenged} refl refl
      (omega arith)

abbrev proved : Db
proved = or_self challenged (confirm_email_verification auth owner "c" 2000000 challenged)
