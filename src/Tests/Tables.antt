-- ===== src/Tests/Tables.antt =====
-- A user, a secret that it creates, and the theorems on the life of that secret.
use phantom_share.Prelude.{refl, String, true, false, none, some, [], ◌∷◌, arith}
use phantom_share.Result.{Result, ok, err}
use phantom_share.Schema.{Db, empty_db, SecretRow, KeyRow, VersionRow, PolicyRow, text}
use phantom_share.Sql.{select_one, select_top, max_of}
use phantom_share.Content.{IsManaged}
use phantom_share.Crypto.{Draw}
use phantom_share.Permissions.{CurrentUser}
use phantom_share.Versions.Inserts.{Request}
use phantom_share.Secrets.Create.{create}
use phantom_share.Secrets.Rows.{Site, SecretCreate}
use phantom_share.Tests.Libraries.{to_text, codes, prims, signing}

abbrev pub after {ℓ} : {A : Type ℓ} → Db → Result (A × Db) → Db
after db (ok (a, db')) = db'
after db (err e) = db

abbrev pub value {ℓ} : {A : Type ℓ} → A → Result (A × Db) → A
value d (ok (a, db')) = a
value d (err e) = d

abbrev pub owner : CurrentUser
owner = record { id = 1; email = "o@x"; role = "user"; is_active = true; is_verified = true }

abbrev pub one_user : Db
one_user = record empty_db {
  users =
      record {
        id = 1;
        email = "o@x";
        username = "o";
        role = "user";
        is_active = true;
        is_verified = true;
        password_hash = "h";
        created_at = 0;
        updated_at = 0;
        delete_after = none;
      }
      ∷ [];
}

abbrev pub draw : Draw
draw = record { dek = 3 ∷ []; dek_nonce = 4 ∷ []; nonce = 5 ∷ [] }

abbrev pub site : Site
site = record {
  base_url = "";
  view_history_retention_days = 30;
  default_limits = record { secret_limit = 10; byte_limit = 100 };
  generate_qr_code = λ s. s;
}

abbrev pub request : Request
request = record { client_ip = "aa"; now = 1000000 }

abbrev pub body : SecretCreate
body = record {
  content = "a";
  ttl_hours = 1;
  password_protected = false;
  access_password = none;
  max_views = 2;
  allowed_emails = none;
  notify_on_view = false;
  notify_email = none;
  webhook_url = none;
  client_encrypted = false;
  client_nonce = none;
  allowed_cidrs = [];
  allowed_countries = [];
  location_policy_mode = "all";
  geoip_fail_closed = true;
}

abbrev pub creation : Result (String × Db)
creation = create prims signing site 2 body request 1 draw one_user

abbrev pub created : Db
created = after one_user creation

-- The share token of the secret 2, good for an hour.
abbrev pub token : String
token = "aa.3601.1.00"

-- The tables with one secret of that user, written out.
abbrev pub secret_row : SecretRow
secret_row = record {
  id = 2;
  content = some (to_text (codes "a"));
  nonce = some "b";
  password_protected = false;
  access_password_hash = none;
  ttl_hours = 1;
  created_at = 1000000;
  expires_at = 3601000000;
  viewed = false;
  owner_id = some 1;
  max_views = 2;
  view_count = 0;
  signed_token = some token;
  notify_on_view = false;
  notify_email = none;
  webhook_url = none;
  email_restricted = false;
  current_version = 1;
  payload_type = text;
  updated_at = 1000000;
}

abbrev pub key_row : KeyRow
key_row = record {
  secret_id = 2;
  wrapped_dek = "aaab";
  dek_nonce = "b";
  version = 1;
  rotated_at = none;
}

abbrev pub version_row : VersionRow
version_row = record {
  secret_id = 2;
  version = 1;
  payload_type = text;
  content = some (to_text (codes "a"));
  nonce = some "b";
  key_version = some 1;
  plaintext_size = 1;
  created_by = some 1;
  change_note = none;
  object_key = none;
  encrypted_size = 0;
  filename_ciphertext = none;
  filename_nonce = none;
  media_type = none;
  content_sha256 = none;
  clamav_version = none;
  scanned_at = none;
  created_at = 1000000;
}

abbrev pub policy_row : PolicyRow
policy_row = record {
  secret_id = 2;
  allowed_cidrs = [];
  allowed_countries = [];
  location_policy_mode = "all";
  geoip_fail_closed = true;
  policy_version = 1;
}

abbrev pub one_secret : Db
one_secret = record one_user {
  secrets = secret_row ∷ [];
  secret_keys = key_row ∷ [];
  secret_versions = version_row ∷ [];
  policies = policy_row ∷ [];
  tracking = record { secret_id = 2; owner_id = 1; retain_until = 9000000000 } ∷ [];
}

unfoldable pub managed : IsManaged 2 one_secret
unfolding select_one select_top max_of
managed = record {
  secret = secret_row;
  secret_found = refl;
  current = version_row;
  current_found = refl;
  same_content = refl;
  same_nonce = refl;
  key = key_row;
  latest_key = refl;
  key_found = refl;
  key_named = refl;
  last_version = omega arith;
}
