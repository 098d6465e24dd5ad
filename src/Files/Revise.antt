-- ===== src/Files/Revise.antt =====
-- The guards and the transaction of `update_file_secret` in app/routers/file_versions.py.
use phantom_share.Prelude.{ℕ, ◌+◌, String, not, Option, some, [], ◌∷◌, ◌==◌, leb}
use phantom_share.Result.{
  http, version_conflict, database_error, Result, ok, ◌>>=◌, ◌>>◌, raise_if, or_raise,
}
use phantom_share.Sql.{select_one, insert, update, delete, exists, max_of}
use phantom_share.Schema.{Db, SecretRow, num, str, secret_is, key_of, version_is}
use phantom_share.Permissions.{CurrentUser, require_owns_secret}
use phantom_share.Crypto.{Bytes, Primitives}
use phantom_share.Audit.{Entry, log_last}
use phantom_share.Keys.{new_key, version_number}
use phantom_share.Versions.Inserts.{Request, is_file}
use phantom_share.Files.Form.{FileDraw, Stored, file_version, pending_is}

pub record FileUpdate : Type 0 where
  pub upload : Bytes
  pub filename : Option String
  pub content_type : Option String
  pub expected_version : ℕ
  pub change_note : Option String

pub record FileUpdated : Type 0 where
  pub secret_id : ℕ
  pub version : ℕ
  pub size : ℕ

abbrev pub updated_entry : ℕ → ℕ → ℕ → Request → ℕ → Entry
updated_entry id user version request size = record {
  action = "secret_updated";
  actor_id = some user;
  actor_ip = some request.client_ip;
  secret_id = some id;
  metadata = ("version", num version) ∷ ("payload_type", str "file") ∷ ("size", num size) ∷ [];
}

abbrev pub at_version : ℕ → ℕ → SecretRow → SecretRow
at_version version now r = record r { current_version = version; updated_at = now }

-- The guards before the upload.
unfoldable pub check_file_update : ℕ → ℕ → ℕ → CurrentUser → Db → Result (Unit {0})
check_file_update max_secret_versions id expected who db = do
  secret ← or_raise (select_one (secret_is id) db.secrets) (http 404 "Secret not found")
  require_owns_secret secret.owner_id who
  raise_if (not (is_file secret.payload_type)) (http 409 "Use the text update endpoint")
  raise_if (not (secret.current_version == expected)) (version_conflict secret.current_version)
  raise_if (leb max_secret_versions expected) (http 409 "Maximum versions reached")

module _ (prims : Primitives) (id : ℕ) (body : FileUpdate) (drawn : FileDraw) (request : Request)
    (who : CurrentUser) (stored : Stored) where
  -- The writes of the transaction: a key, a version and the row of the secret.
  unfoldable pub write_revision : Db → Db
  write_revision db =
      let key_version = max_of (key_of id) version_number db.secret_keys + 1 in
      let version = body.expected_version + 1 in
      record db {
        secret_keys =
            insert (new_key prims id drawn.draw key_version (some request.now)) db.secret_keys;
        secret_versions =
            insert
              (file_version id version key_version stored body.content_type who.id body.change_note
                request.now)
              db.secret_versions;
        secrets = update (secret_is id) (at_version version request.now) db.secrets;
        pending_uploads = delete (pending_is drawn.pending_id) db.pending_uploads;
      }

  -- The guards behind the SELECT … FOR UPDATE.
  unfoldable pub check_revision : Db → Result (Unit {0})
  check_revision db = do
    locked ←
        or_raise (select_one (secret_is id) db.secrets) (http 409 "Secret changed during upload")
    raise_if (not (locked.current_version == body.expected_version))
        (http 409 "Secret changed during upload")
    require_owns_secret locked.owner_id who
    raise_if (exists (version_is id (body.expected_version + 1)) db.secret_versions) database_error

  -- The transaction.
  unfoldable pub revise : Db → Result (Unit {0} × Db)
  revise db = do
    check_revision db
    ok (
      tt,
      log_last "info" (updated_entry id who.id (body.expected_version + 1) request stored.size)
          request.now db (write_revision db),
    )
