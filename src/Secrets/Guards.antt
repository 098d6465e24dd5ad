-- ===== src/Secrets/Guards.antt =====
-- The guards of `_retrieve_secret` of app/routers/secrets.py: the state of the secret, its recipients
-- and its password.
use phantom_share.Prelude.{
  ℕ, String, Bool, true, false, not, Option, none, some, ◌==◌, leb, ltb, str_eq,
}
use phantom_share.Result.{http, Result, ok, err, ◌>>=◌, ◌>>◌, raise_if, or_raise}
use phantom_share.Sql.{select_one, exists}
use phantom_share.Schema.{Db, SecretRow, secret_is, policy_of, recipient_is}
use phantom_share.Permissions.{CurrentUser}
use phantom_share.Crypto.{Primitives}
use phantom_share.ClientIp.{IpText}
use phantom_share.Tokens.{Signing}
use phantom_share.Location.{Countries}
use phantom_share.Versions.Inserts.{is_file}

-- The libraries that the retrieval rests on.
pub record Services : Type 0 where
  pub prims : Primitives
  pub signing : Signing
  pub ip : IpText
  pub country_for_ip : Countries

pub record SecretContent : Type 0 where
  pub content : String
  pub created_at : ℕ
  pub expires_at : ℕ
  pub views_remaining : ℕ
  pub client_encrypted : Bool
  pub version : ℕ

-- A task for `notification_service.notify_secret_viewed` after the response.
pub record Notification : Type 0 where
  pub secret_id : ℕ
  pub notify_email : Option String
  pub webhook_url : Option String
  pub client_ip : String

abbrev pub verified : Option CurrentUser → Bool
verified none = false
verified (some u) = u.is_verified

-- The guards of a secret whose readers are listed.
unfoldable pub check_recipient : ℕ → Option CurrentUser → Db → Result (Unit {0})
check_recipient secret_id none db =
    err (http 401 "Log in with a verified recipient email to access this secret")
check_recipient secret_id (some u) db = do
  raise_if (not u.is_verified) (http 403 "Verify your email before accessing this secret")
  raise_if (not (exists (recipient_is secret_id u.email) db.recipients))
      (http 403 "Your email is not allowed to access this secret")

abbrev pub is_given : Option String → Bool
is_given none = false
is_given (some s) = not (str_eq s "")

abbrev pub same_hash : Primitives → Option String → Option String → Bool
same_hash prims none hash = false
same_hash prims (some password) none = false
same_hash prims (some password) (some hash) = str_eq (prims.sha256_hash password) hash

unfoldable pub check_password : Primitives → SecretRow → Option String → Result (Unit {0})
check_password prims row access_password = do
  raise_if (not (is_given access_password)) (http 401 "Password required")
  raise_if (not (same_hash prims access_password row.access_password_hash))
      (http 401 "Invalid password")

abbrev pub when : Bool → Result (Unit {0}) → Result (Unit {0})
when true m = m
when false m = ok tt

-- The guards behind the SELECT … FOR UPDATE, in the order of the code.
unfoldable pub check_view :
    Primitives → ℕ → Option String → ℕ → ℕ → Option CurrentUser → Db → Result SecretRow
unfolding check_recipient check_password
check_view prims secret_id access_password policy_version now current_user db = do
  row ←
      or_raise (select_one (secret_is secret_id) db.secrets)
        (http 404 "Secret not found or has expired")
  policy ←
      or_raise (select_one (policy_of secret_id) db.policies)
        (http 404 "Secret not found or has expired")
  raise_if (not (policy.policy_version == policy_version))
      (http 403 "Share token policy is no longer current")
  raise_if (ltb row.expires_at now) (http 410 "Secret has expired")
  raise_if (leb row.max_views row.view_count) (http 410 "Secret has reached its maximum view count")
  raise_if (is_file row.payload_type)
      (http 409 "This secret contains a file; use the file download endpoint")
  when row.email_restricted (check_recipient secret_id current_user db)
  when row.password_protected (check_password prims row access_password)
  ok row
