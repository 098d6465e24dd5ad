-- ===== src/Files/Upload.antt =====
-- `create_file_secret` of app/routers/files.py.
use phantom_share.Prelude.{
  ℕ, ◌+◌, ◌*◌, String, Bool, false, not, ◌||◌, Option, none, some, List, [], ◌∷◌, ◌++◌, map,
  if◌then◌else◌,
}
use phantom_share.Text.{◌++◌ as ◌^◌}
use phantom_share.Result.{http, database_error, Result, ok, err, raise_if, or_raise}
use phantom_share.Sql.{insert, delete, exists}
use phantom_share.Schema.{Db, SecretRow, PolicyRow, file, num, secret_is, user_is, tracking_of}
use phantom_share.Permissions.{CurrentUser}
use phantom_share.Crypto.{Bytes, encrypt_content}
use phantom_share.FileCrypto.{encrypt_file}
use phantom_share.Audit.{Entry, log_last}
use phantom_share.Keys.{new_key}
use phantom_share.Tokens.{create_signed_token}
use phantom_share.Quota.{Reservation, reserve}
use phantom_share.Quota.Scripts.{Redis}
use phantom_share.Versions.Inserts.{Request}
use phantom_share.Secrets.Rows.{tracking_row, recipients_of}
use phantom_share.Secrets.Guards.{is_given}
use phantom_share.Files.{spool_upload}
use phantom_share.Files.Stage.{
  Stage, Try, ◌>>=◌, ◌>>◌, lift, in_db, refuse_malware, reserve_bytes, announce, name_object, store,
  conclude,
}
use phantom_share.Files.Form.{
  Uploads, FileForm, FileDraw, distinct, is_country, networks, or_name, file_password, Stored,
  file_version, object_name, quarter_hour, pending_is, is_nonempty, FileCreated,
}

module _ (up : Uploads) where
  -- The encryption of the upload and of its name, the announcement, and the upload of the object,
  -- for a file that was found clean with `scanned`.
  unfoldable pub seal_upload :
      ℕ → ℕ → FileDraw → Request → ℕ → Bytes → Option String → ℕ → String → Reservation → Try Stored
  seal_upload secret_id version drawn request user upload filename size scanned held = do
    e ← lift (
        encrypt_file up.cipher drawn.draw.dek up.chunk_size drawn.nonce_prefix secret_id version
          upload)
    let name = encrypt_content up.prims (or_name filename) drawn.draw.dek drawn.draw.nonce
    let key = object_name up secret_id version drawn.object_uuid
    name_object key
    in_db (
        announce (record {
          id = drawn.pending_id;
          user_id = user;
          secret_id = secret_id;
          object_key = key;
          reservation_id = held.id;
          plaintext_size = size;
          expires_at = request.now + quarter_hour;
        }))
    encrypted_size ← store up.outside key e.object
    lift (
        ok (record {
          key = key;
          size = size;
          encrypted_size = encrypted_size;
          digest = e.digest;
          filename = name;
          scanned = up.outside.prefix_200 scanned;
        }))

  -- The steps that a creation and an update share: the upload is measured, scanned, and sealed.
  unfoldable pub take_in : ℕ → ℕ → FileDraw → Request → ℕ → Bytes → Option String → Try Stored
  unfolding seal_upload
  take_in secret_id version drawn request user upload filename = do
    size ← lift (spool_upload up.max_file_bytes upload)
    reply ← lift (up.outside.scan upload)
    scanned ← refuse_malware up.outside user request size reply
    held ← reserve_bytes up.limits user size drawn.byte_reservation_id request
    seal_upload secret_id version drawn request user upload filename size scanned held

  -- The row of the INSERT into secrets.
  abbrev pub file_secret : ℕ → FileForm → ℕ → String → Bool → ℕ → SecretRow
  file_secret id form user token restricted now = record {
    id = id;
    content = none;
    nonce = none;
    password_protected = is_given form.access_password;
    access_password_hash = file_password up.prims form.access_password;
    ttl_hours = form.ttl_hours;
    created_at = now;
    expires_at = now + form.ttl_hours * 3600000000;
    viewed = false;
    owner_id = some user;
    max_views = form.max_views;
    view_count = 0;
    signed_token = some token;
    notify_on_view = false;
    notify_email = none;
    webhook_url = none;
    email_restricted = restricted;
    current_version = 1;
    payload_type = file;
    updated_at = now;
  }

  abbrev pub file_policy : ℕ → FileForm → List String → List String → PolicyRow
  file_policy id form cidrs countries = record {
    secret_id = id;
    allowed_cidrs = cidrs;
    allowed_countries = countries;
    location_policy_mode = form.location_policy_mode;
    geoip_fail_closed = form.geoip_fail_closed;
    policy_version = 1;
  }

  -- The rows that the transaction writes.
  unfoldable pub write_file :
      FileForm
      → FileDraw
      → Request
      → ℕ
      → Stored
      → List String
      → List String
      → List String
      → String
      → Db
      → Db
  write_file form drawn request user stored emails cidrs countries token db =
      let id = drawn.secret_id in
      let secret = file_secret id form user token (is_nonempty emails) request.now in
      record db {
        secrets = insert secret db.secrets;
        secret_keys = insert (new_key up.prims id drawn.draw 1 none) db.secret_keys;
        secret_versions =
            insert (file_version id 1 1 stored form.content_type user form.change_note request.now)
              db.secret_versions;
        recipients = db.recipients ++ recipients_of id (some emails);
        policies = insert (file_policy id form cidrs countries) db.policies;
        tracking = db.tracking ++ tracking_row id user up.retention_days (some secret);
        pending_uploads = delete (pending_is drawn.pending_id) db.pending_uploads;
      }

  abbrev pub uploaded_entry : ℕ → ℕ → Request → ℕ → Entry
  uploaded_entry id user request size = record {
    action = "file_uploaded";
    actor_id = some user;
    actor_ip = some request.client_ip;
    secret_id = some id;
    metadata = ("version", num 1) ∷ ("size", num size) ∷ [];
  }

  -- The transaction, with the audit entry as its last statement.
  unfoldable pub insert_file :
      FileForm
      → FileDraw
      → Request
      → ℕ
      → Stored
      → List String
      → List String
      → List String
      → String
      → Db
      → Result (Unit {0} × Db)
  unfolding write_file
  insert_file form drawn request user stored emails cidrs countries token db =
      if exists (secret_is drawn.secret_id) db.secrets
        || exists (tracking_of drawn.secret_id) db.tracking
        || not (exists (user_is user) db.users)
      then err database_error
      else ok (
        tt,
        log_last "info" (uploaded_entry drawn.secret_id user request stored.size) request.now db
            (write_file form drawn request user stored emails cidrs countries token db),
      )

  -- The `try` block of `create_file_secret`.
  unfoldable pub create_file : FileForm → FileDraw → Request → ℕ → Try FileCreated
  unfolding take_in insert_file
  create_file form drawn request user = do
    stored ← take_in drawn.secret_id 1 drawn request user form.upload form.filename
    emails ← lift (or_raise (up.emails form.allowed_email) (http 422 "Invalid allowed email"))
    cidrs ← lift (networks up.network form.allowed_cidr)
    let countries = distinct (map up.upper form.allowed_country)
    lift (raise_if (exists (λ c. not (is_country c)) countries) (http 422 "Invalid country code"))
    let token = create_signed_token up.signing drawn.secret_id form.ttl_hours 1 none request.now
    in_db (
        insert_file form drawn request user stored (distinct emails) (distinct cidrs) countries
          token)
    lift (
        ok (record {
          secret_id = drawn.secret_id;
          share_url =
              up.base_url
              ^ ("/api/secrets/"
                  ^ (up.signing.uuid_str drawn.secret_id ^ ("/file?token=" ^ token)));
          signed_token = token;
          version = 1;
          size = stored.size;
        }))

  abbrev pub with_secret :
      FileForm
      → FileDraw
      → Request
      → ℕ
      → Stage
      → Result Reservation × Option Redis
      → Result FileCreated × Stage
  with_secret form drawn request user s (err e, redis) = (err e, record s { redis = redis })
  with_secret form drawn request user s (ok r, redis) =
      conclude up.outside user (some r)
        (create_file form drawn request user (record s { redis = redis }))

  -- `create_file_secret`, from a stage that holds nothing yet.
  unfoldable pub create_file_secret :
      FileForm → FileDraw → Request → CurrentUser → Stage → Result FileCreated × Stage
  unfolding create_file
  create_file_secret form drawn request who s =
      with_secret form drawn request who.id s
        (reserve up.limits who.id 1 0 drawn.secret_reservation_id request.now s.db s.redis)
