-- ===== src/Files/Download.antt =====
-- `download_file_secret` of app/routers/files.py.
use phantom_share.Prelude.{
  ℕ, String, not, ◌||◌, Option, none, some, List, [], ◌∷◌, ◌==◌, leb, str_eq, if◌then◌else◌,
}
use phantom_share.Result.{http, storage_error, Result, ok, err, ◌>>=◌, ◌>>◌, raise_if, or_raise}
use phantom_share.Sql.{select_one}
use phantom_share.Schema.{Db, SecretRow, VersionRow, num, str, secret_is, policy_of, version_is}
use phantom_share.Permissions.{CurrentUser}
use phantom_share.Crypto.{Bytes, Primitives, decrypt_content}
use phantom_share.FileCrypto.{FileCipher, decrypt_file}
use phantom_share.Audit.{Entry, log_last}
use phantom_share.Keys.{get_dek_for_secret}
use phantom_share.Location.{authorize}
use phantom_share.Versions.Inserts.{Request, is_file}
use phantom_share.Secrets.Views.{record_view, count_view, id_of}
use phantom_share.Secrets.Guards.{Services}
use phantom_share.Files.{Object, object_is, authorize_reader}

-- The cipher of file objects, and `Path(text).name`.
pub record FileServices : Type 0 where
  pub services : Services
  pub cipher : FileCipher
  pub path_name : String → String

pub record FileResponse : Type 0 where
  pub body : Bytes
  pub filename : String
  pub media_type : String

-- The guards before the download, and the key of the object.
unfoldable pub check_download :
    Primitives → ℕ → Option String → ℕ → ℕ → Option CurrentUser → Db → Result (SecretRow × String)
check_download prims secret_id access_password policy_version now current_user db = do
  secret ← or_raise (select_one (secret_is secret_id) db.secrets) (http 404 "File secret not found")
  policy ←
      or_raise (select_one (policy_of secret_id) db.policies) (http 404 "File secret not found")
  raise_if (not (is_file secret.payload_type)) (http 404 "File secret not found")
  authorize_reader prims secret access_password current_user db
  raise_if (not (policy.policy_version == policy_version))
      (http 403 "Share token policy is no longer current")
  raise_if (leb secret.expires_at now || leb secret.max_views secret.view_count)
      (http 410 "Secret is no longer available")
  row ←
      or_raise (select_one (version_is secret_id secret.current_version) db.secret_versions)
        (http 404 "Did not find a file for provided secret id and version")
  object_key ← or_raise row.object_key storage_error
  ok (secret, object_key)

-- The guards behind the SELECT … FOR UPDATE.
unfoldable pub check_locked : ℕ → ℕ → ℕ → Db → Result (SecretRow × VersionRow)
check_locked secret_id version policy_version db = do
  locked ←
      or_raise (select_one (secret_is secret_id) db.secrets)
        (http 409 "Secret changed; retry download")
  policy ←
      or_raise (select_one (policy_of secret_id) db.policies)
        (http 409 "Secret changed; retry download")
  raise_if (not (locked.current_version == version)) (http 409 "Secret changed; retry download")
  raise_if (not (policy.policy_version == policy_version))
      (http 403 "Share token policy is no longer current")
  raise_if (leb locked.max_views locked.view_count) (http 410 "Secret is no longer available")
  version_row ←
      or_raise (select_one (version_is secret_id version) db.secret_versions)
        (http 404 "Key not found for the secret version")
  ok (locked, version_row)

abbrev pub download_entry : ℕ → ℕ → Option CurrentUser → String → Entry
download_entry secret_id version current_user client_ip = record {
  action = "secret_viewed";
  actor_id = id_of current_user;
  actor_ip = some client_ip;
  secret_id = some secret_id;
  metadata = ("version", num version) ∷ ("payload_type", str "file") ∷ [];
}

abbrev pub or_download : String → String
or_download name = if str_eq name "" then "download" else name

abbrev pub or_octets : Option String → String
or_octets none = "application/octet-stream"
or_octets (some t) = if str_eq t "" then "application/octet-stream" else t

module _ (fs : FileServices) where
  -- The decryption of the file's name and of the object.
  unfoldable pub open_file : ℕ → SecretRow → VersionRow → Bytes → Db → Result FileResponse
  open_file secret_id locked version_row object db = do
    dek ← get_dek_for_secret fs.services.prims secret_id version_row.key_version db.secret_keys
    filename ←
        decrypt_content fs.services.prims version_row.filename_ciphertext version_row.filename_nonce
          dek
    body ← decrypt_file fs.cipher dek secret_id locked.current_version object
    ok (record {
      body = body;
      filename = or_download (fs.path_name filename);
      media_type = or_octets version_row.media_type;
    })

  -- The writes of the transaction: the view, the count with its trigger, and the audit entry.
  unfoldable pub write_view : ℕ → SecretRow → Option CurrentUser → Request → Db → Db
  write_view secret_id locked current_user request db =
      log_last "info"
        (download_entry secret_id locked.current_version current_user request.client_ip) request.now
        db
        (count_view secret_id locked request.now
          (record_view secret_id current_user locked.current_version request.now db))

  -- The transaction, on the object that was downloaded for `version`.
  unfoldable pub serve_file :
      ℕ → ℕ → ℕ → Bytes → Option CurrentUser → Request → Db → Result (FileResponse × Db)
  serve_file secret_id version policy_version object current_user request db = do
    (locked, version_row) ← check_locked secret_id version policy_version db
    response ← open_file secret_id locked version_row object db
    ok (response, write_view secret_id locked current_user request db)

  abbrev pub kept : Result (FileResponse × Db) → Db → Result FileResponse × Db
  kept (err e) db = (err e, db)
  kept (ok (response, db')) db = (ok response, db')

  -- What follows the authorisation. `meanwhile` is what other requests do to the database between
  -- the guards and the transaction, and `objects` the storage.
  abbrev pub fetch :
      ℕ
      → ℕ
      → Result (SecretRow × String)
      → List Object
      → Option CurrentUser
      → Request
      → (Db → Db)
      → Db
      → Result FileResponse × Db
  fetch secret_id policy_version (err e) objects current_user request meanwhile db = (err e, db)
  fetch secret_id policy_version (ok (secret, key)) objects current_user request meanwhile db =
      elim (select_one (object_is key) objects) [
        | none ↦ (err storage_error, meanwhile db)
        | some o ↦
            kept
              (serve_file secret_id secret.current_version policy_version o.bytes current_user
                request (meanwhile db))
              (meanwhile db)
      ]

  abbrev pub proceed :
      ℕ
      → Option String
      → List Object
      → Option CurrentUser
      → Request
      → (Db → Db)
      → Result ℕ × Db
      → Result FileResponse × Db
  proceed secret_id access_password objects current_user request meanwhile (err e, db) = (err e, db)
  proceed secret_id access_password objects current_user request meanwhile (ok policy_version, db) =
      fetch secret_id policy_version
        (check_download fs.services.prims secret_id access_password policy_version request.now
          current_user db)
        objects current_user request meanwhile db

  -- `download_file_secret`
  unfoldable pub download_file_secret :
      ℕ
      → Option String
      → Option String
      → List Object
      → Option CurrentUser
      → Request
      → (Db → Db)
      → Db
      → Result FileResponse × Db
  unfolding check_download check_locked open_file write_view serve_file
  download_file_secret secret_id token access_password objects current_user request meanwhile db =
      proceed secret_id access_password objects current_user request meanwhile (
        authorize fs.services.ip fs.services.country_for_ip fs.services.signing secret_id token
          request.client_ip request.now db)
