-- ===== src/Tests/Race.antt =====
-- Two refreshes of one token at the same time.
use phantom_share.Prelude.{◌≡◌, refl, true, eq_iff}
use phantom_share.Result.{Result, ok}
use phantom_share.Sql.{exists}
use phantom_share.Schema.{Db}
use phantom_share.Accounts.{SessionDraw}
use phantom_share.Accounts.Sessions.{TokenResponse, refresh_token_endpoint}
use phantom_share.Accounts.Race.{is_live, refresh_token_endpoint_twice}
use phantom_share.Tests.Cleaning.{false-ne-true}
use phantom_share.Tests.Jwt.{auth, answer, inside, second_one, no_tokens}
use phantom_share.Tests.Tables.{value, after, request}

abbrev third_one : SessionDraw
third_one = record second_one { session_id = 13 }

abbrev winner : Result (TokenResponse × Db)
winner = refresh_token_endpoint auth answer.refresh_token "" request second_one (λ d. d) inside

abbrev late : Result (TokenResponse × Db)
late = refresh_token_endpoint auth answer.refresh_token "" request third_one (λ d. d) inside

refresh_token_endpoint_twice_example :
    (db : Db) × (refresh_token_endpoint auth answer.refresh_token "" request third_one
        (λ _. after inside winner)
        inside
      ≡ ok (value no_tokens late, db))
    × (exists (is_live 13) db.sessions ≡ true)
    × (exists (is_live second_one.session_id) db.sessions ≡ true)
unfolding phantom_share.Accounts.Sessions.login refresh_token_endpoint
    phantom_share.Tests.Jwt.claims_of phantom_share.Tests.Jwt.payload
    phantom_share.Tests.Libraries.read phantom_share.Tests.Libraries.to_text
    phantom_share.Tests.Libraries.codes phantom_share.Tests.Libraries.of_codes
    phantom_share.Sql.select_one phantom_share.Text.ci_eq phantom_share.Text.same_codes
    phantom_share.Text.upper phantom_share.Sql.exists phantom_share.Sql.insert
    phantom_share.Sql.delete phantom_share.Audit.log phantom_share.Audit.insert_entry
    phantom_share.Accounts.create_refresh_token phantom_share.Accounts.create_access_token
    phantom_share.Accounts.decode_token phantom_share.Accounts.find_bearer
    phantom_share.Accounts.Sessions.check_login phantom_share.Accounts.Sessions.check_refresh
    phantom_share.Accounts.Sessions.insert_session phantom_share.Accounts.Sessions.open_session
    phantom_share.Accounts.Sessions.revoke phantom_share.Accounts.Sessions.rotate
    phantom_share.Tests.Libraries.unary
refresh_token_endpoint_twice_example =
    refresh_token_endpoint_twice auth answer.refresh_token "" "" request request third_one
      second_one inside {r = value no_tokens late} {r' = value no_tokens winner}
      {alone = after inside late} {between = after inside winner} (λ e. false-ne-true cc)
      (λ e.
        false-ne-true (
          (eq_iff (value no_tokens late).refresh_token (value no_tokens winner).refresh_token).1 e))
      (λ e.
        false-ne-true ((eq_iff (value no_tokens winner).refresh_token answer.refresh_token).1 e))
      refl refl
