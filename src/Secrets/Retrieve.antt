-- ===== src/Secrets/Retrieve.antt =====
-- `_retrieve_secret`: the guards, the decryption, the view that is counted, and what the database
-- deletes at the last view.
pub mod Burn
pub mod Reads
use phantom_share.Prelude.{
  ℕ, ◌+◌, ◌-◌, String, Bool, true, false, not, ◌&&◌, ◌||◌, Option, none, some, List, [], ◌∷◌, ◌++◌,
  ◌==◌, leb, ltb, str_eq, is_some, if◌then◌else◌,
}
use phantom_share.Result.{
  Exn, http, value_error, type_error, runtime_error, database_error, version_conflict,
  quota_exceeded, location_denied, rate_limited, Result, ok, err, ◌>>=◌, ◌>>◌, raise_if, or_raise,
}
use phantom_share.Sql.{select_one, exists, insert, update}
use phantom_share.Schema.{
  Db, SecretRow, PolicyRow, ViewRow, AuditRow, Payload, num, str, null, secret_is, policy_of,
  recipient_is, tracking_of, key_of, delete_secrets,
}
use phantom_share.Permissions.{CurrentUser}
use phantom_share.Crypto.{Primitives, decrypt_content}
use phantom_share.Audit.{Entry, insert_entry}
use phantom_share.Keys.{get_dek_for_secret}
use phantom_share.ClientIp.{IpText}
use phantom_share.Tokens.{Signing}
use phantom_share.Location.{Countries, authorize}
use phantom_share.Versions.Inserts.{Request, is_file}
use phantom_share.Secrets.Guards.{
  Services, SecretContent, Notification, verified, check_recipient, is_given, same_hash,
  check_password, when, check_view,
}
use phantom_share.Secrets.Views.{
  as_500, text_of, reveal, view_row, record_view, id_of, view_entry, delete_if_fully_viewed,
  counted, count_view,
}

-- The transaction of `_retrieve_secret`, past its guards.
unfoldable pub serve :
    Primitives
    → ℕ
    → SecretRow
    → Request
    → Option CurrentUser
    → Db
    → Result ((SecretContent × SecretRow) × Db)
serve prims secret_id row request current_user db = do
  (content, client_encrypted) ← reveal prims secret_id row db
  raise_if (row.email_restricted && not (exists (tracking_of secret_id) db.tracking))
      (http 500 "Unable to record secret access")
  db1 ←
      insert_entry "info" (view_entry secret_id row current_user request.client_ip) request.now
        (record_view secret_id current_user row.current_version request.now db)
  ok (
    (
      record {
        content = content;
        created_at = row.created_at;
        expires_at = row.expires_at;
        views_remaining = row.max_views - (row.view_count + 1);
        client_encrypted = client_encrypted;
        version = row.current_version;
      },
      row,
    ),
    count_view secret_id row request.now db1,
  )

-- The transaction of `_retrieve_secret`.
unfoldable pub retrieve :
    Primitives
    → ℕ
    → Option String
    → ℕ
    → Request
    → Option CurrentUser
    → Db
    → Result ((SecretContent × SecretRow) × Db)
unfolding check_view serve
retrieve prims secret_id access_password policy_version request current_user db = do
  row ← check_view prims secret_id access_password policy_version request.now current_user db
  serve prims secret_id row request current_user db

-- A ValueError of the authorisation is answered by 403.
abbrev pub as_403 {ℓ} : {A : Type ℓ} → Result A → Result A
as_403 (ok a) = ok a
as_403 (err (value_error _)) = err (http 403 "Invalid share token")
as_403 (err e) = err e

abbrev pub notice : ℕ → SecretRow → String → List Notification
notice secret_id row client_ip =
    if row.notify_on_view
    then record {
      secret_id = secret_id;
      notify_email = row.notify_email;
      webhook_url = row.webhook_url;
      client_ip = client_ip;
    }
      ∷ []
    else []

-- The transaction commits where it returns, and is rolled back where it raises.
abbrev pub committed :
    ℕ
    → String
    → Result ((SecretContent × SecretRow) × Db)
    → Db
    → Result (SecretContent × List Notification) × Db
committed secret_id client_ip (err e) db = (err e, db)
committed secret_id client_ip (ok ((c, row), db')) db =
    (ok (c, notice secret_id row client_ip), db')

module _ (services : Services) where
  abbrev pub go_on :
      ℕ
      → Option String
      → Request
      → Option CurrentUser
      → Result ℕ
      → Db
      → Result (SecretContent × List Notification) × Db
  go_on secret_id access_password request current_user (err e) db = (err e, db)
  go_on secret_id access_password request current_user (ok policy_version) db =
      committed secret_id request.client_ip
        (retrieve services.prims secret_id access_password policy_version request current_user db)
        db

  -- `_retrieve_secret`; `none` is a path parameter that is no UUID.
  unfoldable pub retrieve_secret :
      Option ℕ
      → Option String
      → Option String
      → Request
      → Option CurrentUser
      → Db
      → Result (SecretContent × List Notification) × Db
  retrieve_secret none access_password token request current_user db =
      (err (http 403 "Invalid share token"), db)
  retrieve_secret (some secret_id) access_password token request current_user db =
      let (policy_version, db1) =
        authorize services.ip services.country_for_ip services.signing secret_id token
          request.client_ip request.now db in
      go_on secret_id access_password request current_user (as_403 policy_version) db1

  -- `get_secret` and `get_secret_browser`: the token of the query, or else that of the body.
  abbrev pub or_token : Option String → Option String → Option String
  or_token query body = if is_given query then query else body

  unfoldable pub get_secret :
      Option ℕ
      → Option String
      → Option String
      → Option String
      → Request
      → Option CurrentUser
      → Db
      → Result (SecretContent × List Notification) × Db
  unfolding retrieve_secret
  get_secret secret_id access_password signed_token token request current_user db =
      retrieve_secret secret_id access_password (or_token token signed_token) request current_user
        db

  unfoldable pub get_secret_browser :
      Option ℕ
      → Option String
      → Option String
      → Request
      → Option CurrentUser
      → Db
      → Result (SecretContent × List Notification) × Db
  unfolding retrieve_secret
  get_secret_browser secret_id token access_password request current_user db =
      retrieve_secret secret_id access_password token request current_user db
