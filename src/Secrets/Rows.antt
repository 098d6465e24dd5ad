-- ===== src/Secrets/Rows.antt =====
-- The rows that `create_secret` of app/routers/secrets.py writes: the secret with its content and key,
-- its first version, policy, recipients and tracking row.
use phantom_share.Prelude.{
  ℕ, ◌+◌, ◌*◌, String, Bool, true, false, not, Option, none, some, List, [], ◌∷◌, is_some, map,
  ◌==◌, if◌then◌else◌, length,
}
use phantom_share.Text.{decimal, ◌++◌ as ◌^◌}
use phantom_share.Result.{
  http, value_error, database_error, Result, ok, err, ◌>>=◌, ◌>>◌, raise_if, or_raise,
}
use phantom_share.Sql.{exists, insert}
use phantom_share.Schema.{
  Db, SecretRow, VersionRow, PolicyRow, RecipientRow, TrackingRow, text, secret_is,
}
use phantom_share.Crypto.{Bytes, Primitives, Draw, encrypt_content, validate_client_encrypted}
use phantom_share.Audit.{Entry, is_known_user}
use phantom_share.Keys.{new_key}
use phantom_share.Quota.Scripts.{Limits}

abbrev hour : ℕ
hour = 3600000000

abbrev day : ℕ
day = 86400000000

-- The settings and the QR library that the handler uses.
pub record Site : Type 0 where
  pub base_url : String
  pub view_history_retention_days : ℕ
  pub default_limits : Limits
  pub generate_qr_code : String → String

pub record SecretCreate : Type 0 where
  pub content : String
  pub ttl_hours : ℕ
  pub password_protected : Bool
  pub access_password : Option String
  pub max_views : ℕ
  pub allowed_emails : Option (List String)
  pub notify_on_view : Bool
  pub notify_email : Option String
  pub webhook_url : Option String
  pub client_encrypted : Bool
  pub client_nonce : Option String
  pub allowed_cidrs : List String
  pub allowed_countries : List String
  pub location_policy_mode : String
  pub geoip_fail_closed : Bool

abbrev password_hash : Primitives → Bool → Option String → Option String
password_hash prims true (some password) = some (prims.sha256_hash password)
password_hash prims true none = none
password_hash prims false password = none

-- The row of `_insert_secret`; the trigger `calculate_expiration` fills in `expires_at`.
unfoldable pub secret_row :
    Primitives → ℕ → String → Option String → SecretCreate → ℕ → ℕ → SecretRow
secret_row prims id content nonce body owner_id now = record {
  id = id;
  content = some content;
  nonce = nonce;
  password_protected = body.password_protected;
  access_password_hash = password_hash prims body.password_protected body.access_password;
  ttl_hours = body.ttl_hours;
  created_at = now;
  expires_at = now + body.ttl_hours * hour;
  viewed = false;
  owner_id = some owner_id;
  max_views = body.max_views;
  view_count = 0;
  signed_token = none;
  notify_on_view = body.notify_on_view;
  notify_email = body.notify_email;
  webhook_url = body.webhook_url;
  email_restricted = is_some body.allowed_emails;
  current_version = 1;
  payload_type = text;
  updated_at = now;
}

-- `_insert_secret`: `id` is drawn by the database, and the owner has to be a user.
unfoldable pub insert_secret :
    Primitives → ℕ → String → Option String → SecretCreate → ℕ → ℕ → Db → Result Db
unfolding secret_row
insert_secret prims id content nonce body owner_id now db = do
  raise_if (exists (secret_is id) db.secrets) database_error
  raise_if (not (is_known_user (some owner_id) db)) database_error
  ok (record db {
    secrets = insert (secret_row prims id content nonce body owner_id now) db.secrets;
  })

-- The ValueError of `validate_client_encrypted` is answered by 400, with its text.
abbrev detail : Primitives → String → Option Bytes → String
detail prims content none = "nonce_b64 is not valid base64"
detail prims content (some nonce) =
    if length nonce == 12
    then "ciphertext_b64 is not valid base64"
    else "nonce must be 12 bytes; got " ^ decimal (length nonce)

abbrev as_400 : String → Result (Unit {0}) → Result (Unit {0})
as_400 reason (ok u) = ok u
as_400 reason (err (value_error _)) = err (http 400 reason)
as_400 reason (err e) = err e

-- A secret whose content the client encrypted: there is no key for it.
unfoldable pub insert_opaque : Primitives → ℕ → SecretCreate → ℕ → ℕ → Db → Result Db
unfolding insert_secret
insert_opaque prims id body owner_id now db = do
  nonce ← or_raise body.client_nonce (http 400 "nonce_b64 is not valid base64")
  as_400 (detail prims body.content (prims.b64decode_strict nonce))
      (validate_client_encrypted prims body.content nonce)
  insert_secret prims id body.content body.client_nonce body owner_id now db

-- A secret that the server encrypts, with its first key.
unfoldable pub insert_encrypted : Primitives → ℕ → SecretCreate → ℕ → Draw → ℕ → Db → Result Db
unfolding insert_secret
insert_encrypted prims id body owner_id draw now db = do
  let (content, nonce) = encrypt_content prims body.content draw.dek draw.nonce
  db1 ← insert_secret prims id content (some nonce) body owner_id now db
  ok (record db1 { secret_keys = insert (new_key prims id draw 1 none) db1.secret_keys })

unfoldable pub insert_body : Primitives → ℕ → SecretCreate → ℕ → Draw → ℕ → Db → Result Db
unfolding insert_opaque insert_encrypted
insert_body prims id body owner_id draw now db =
    if body.client_encrypted
    then insert_opaque prims id body owner_id now db
    else insert_encrypted prims id body owner_id draw now db

abbrev key_version_of : Bool → Option ℕ
key_version_of true = none
key_version_of false = some 1

-- The first version, with the content that the secret was stored with.
abbrev pub first_version : Primitives → ℕ → SecretCreate → ℕ → Draw → ℕ → VersionRow
first_version prims id body owner_id draw now =
    let (content, nonce) = encrypt_content prims body.content draw.dek draw.nonce in
    record {
      secret_id = id;
      version = 1;
      payload_type = text;
      content = some (if body.client_encrypted then body.content else content);
      nonce = if body.client_encrypted then body.client_nonce else some nonce;
      key_version = key_version_of body.client_encrypted;
      plaintext_size = length (prims.encode body.content);
      created_by = some owner_id;
      change_note = none;
      object_key = none;
      encrypted_size = 0;
      filename_ciphertext = none;
      filename_nonce = none;
      media_type = none;
      content_sha256 = none;
      clamav_version = none;
      scanned_at = none;
      created_at = now;
    }

abbrev pub first_policy : ℕ → SecretCreate → PolicyRow
first_policy id body = record {
  secret_id = id;
  allowed_cidrs = body.allowed_cidrs;
  allowed_countries = body.allowed_countries;
  location_policy_mode = body.location_policy_mode;
  geoip_fail_closed = body.geoip_fail_closed;
  policy_version = 1;
}

abbrev pub recipients_of : ℕ → Option (List String) → List RecipientRow
recipients_of id none = []
recipients_of id (some emails) = map (λ email. record { secret_id = id; email = email }) emails

-- INSERT INTO secret_tracking … SELECT … FROM secrets.
abbrev pub tracking_row : ℕ → ℕ → ℕ → Option SecretRow → List TrackingRow
tracking_row id owner_id days none = []
tracking_row id owner_id days (some s) =
    record { secret_id = id; owner_id = owner_id; retain_until = s.expires_at + days * day } ∷ []

abbrev pub signed : String → SecretRow → SecretRow
signed token r = record r { signed_token = some token }

abbrev pub created_entry : ℕ → ℕ → String → Entry
created_entry id owner_id client_ip = record {
  action = "secret_created";
  actor_id = some owner_id;
  actor_ip = some client_ip;
  secret_id = some id;
  metadata = [];
}
