-- ===== src/Versions.antt =====
-- app/routers/secret_versions.py: a new version, the history and the restoration of a text secret.
pub mod Laws
pub mod Lost
pub mod Update
pub mod Restore
pub mod Conflict
pub mod Inserts
use phantom_share.Prelude.{
  ℕ, ◌+◌, String, Bool, not, Option, none, some, List, [], ◌∷◌, map, leb, ltb, ◌==◌, length,
  is_some, if◌then◌else◌,
}
use phantom_share.Result.{
  Exn, http, version_conflict, database_error, Result, ok, err, ◌>>=◌, ◌>>◌, raise_if, or_raise,
}
use phantom_share.Sql.{select_one, select, insert, update, exists}
use phantom_share.Schema.{
  Db, SecretRow, VersionRow, Payload, text, file, num, secret_is, version_is, version_of,
}
use phantom_share.Permissions.{CurrentUser, require_owns_secret}
use phantom_share.Crypto.{Primitives, Draw, encrypt_content, decrypt_content}
use phantom_share.Audit.{Entry, log_last}
use phantom_share.Text.{decimal, ◌++◌}
use phantom_share.Keys.{create_version_key, get_dek_for_secret}
use phantom_share.Versions.Inserts.{
  Request, SecretUpdate, SecretUpdateResponse, SecretVersionItem, is_file, key_version_of,
  text_version, write_text_version, insert_text_version,
}

-- The guards of `update_secret`, up to the version that it appends to.
unfoldable pub check_update : ℕ → ℕ → SecretUpdate → Request → CurrentUser → Db → Result SecretRow
check_update max_secret_versions secret_id body request who db = do
  row ← or_raise (select_one (secret_is secret_id) db.secrets) (http 404 "Secret not found")
  require_owns_secret row.owner_id who
  raise_if (leb row.expires_at request.now) (http 410 "Secret has expired")
  raise_if (is_file row.payload_type) (http 409 "Use the file update endpoint")
  raise_if (not (row.current_version == body.expected_version))
      (version_conflict row.current_version)
  raise_if (leb max_secret_versions row.current_version) (http 409 "Maximum versions reached")
  let current_key =
      key_version_of (select_one (version_is secret_id row.current_version) db.secret_versions)
  raise_if (not (is_some current_key))
      (http 409 "Server-side updates are unavailable for client-encrypted secrets")
  ok row

-- The audit entry of an update from `version`.
abbrev pub update_entry : ℕ → ℕ → ℕ → Request → CurrentUser → Entry
update_entry secret_id version key_version request who = record {
  action = "secret_updated";
  actor_id = some who.id;
  actor_ip = some request.client_ip;
  secret_id = some secret_id;
  metadata =
      ("from_version", num version)
      ∷ ("to_version", num (version + 1))
      ∷ ("key_version", num key_version)
      ∷ [];
}

-- The transaction of `update_secret`.
unfoldable pub update_secret :
    Primitives
    → ℕ
    → ℕ
    → SecretUpdate
    → Request
    → CurrentUser
    → Draw
    → Db
    → Result (SecretUpdateResponse × Db)
update_secret prims max_secret_versions secret_id body request who draw db = do
  row ← check_update max_secret_versions secret_id body request who db
  let new_version = row.current_version + 1
  (key_version, db1) ←
      insert_text_version prims secret_id new_version body.content who.id body.change_note draw
        request.now db
  ok (
    record { secret_id = secret_id; version = new_version; updated_at = request.now },
    log_last "info" (update_entry secret_id row.current_version key_version request who) request.now
        db db1,
  )

pub record SecretVersionList : Type 0 where
  pub current_version : ℕ
  pub items : List SecretVersionItem

abbrev item_of : ℕ → VersionRow → SecretVersionItem
item_of current r = record {
  version = r.version;
  plaintext_size = r.plaintext_size;
  created_by = r.created_by;
  change_note = r.change_note;
  created_at = r.created_at;
  is_current = r.version == current;
}

-- ORDER BY version DESC, as an insertion sort.
unfoldable pub insert_desc : VersionRow → List VersionRow → List VersionRow
insert_desc r [] = r ∷ []
insert_desc r (s ∷ rows) = if ltb r.version s.version then s ∷ insert_desc r rows else r ∷ s ∷ rows

unfoldable pub order_desc : List VersionRow → List VersionRow
unfolding insert_desc
order_desc [] = []
order_desc (r ∷ rows) = insert_desc r (order_desc rows)

unfoldable pub list_secret_versions : ℕ → CurrentUser → Db → Result SecretVersionList
unfolding order_desc
list_secret_versions secret_id who db = do
  secret ← or_raise (select_one (secret_is secret_id) db.secrets) (http 404 "Secret not found")
  require_owns_secret secret.owner_id who
  let rows = order_desc (select (version_of secret_id) db.secret_versions)
  ok (record {
    current_version = secret.current_version;
    items = map (item_of secret.current_version) rows;
  })

-- The guards of `restore_secret_version`: the secret, and the version to restore with its key.
unfoldable pub check_restore : ℕ → ℕ → ℕ → CurrentUser → Db → Result (SecretRow × VersionRow × ℕ)
check_restore max_secret_versions secret_id version who db = do
  secret ← or_raise (select_one (secret_is secret_id) db.secrets) (http 404 "Secret not found")
  require_owns_secret secret.owner_id who
  raise_if (leb max_secret_versions secret.current_version) (http 409 "Maximum versions reached")
  old ←
      or_raise (select_one (version_is secret_id version) db.secret_versions)
        (http 404 "Secret version not found")
  raise_if (is_file old.payload_type)
      (http 409 "Only server-encrypted text versions can be restored")
  key_version ←
      or_raise old.key_version (http 409 "Only server-encrypted text versions can be restored")
  ok (secret, old, key_version)

abbrev pub restore_entry : ℕ → ℕ → ℕ → Request → CurrentUser → Entry
restore_entry secret_id version new_version request who = record {
  action = "secret_version_restored";
  actor_id = some who.id;
  actor_ip = some request.client_ip;
  secret_id = some secret_id;
  metadata = ("restored_version", num version) ∷ ("new_version", num new_version) ∷ [];
}

-- The transaction of `restore_secret_version`.
unfoldable pub restore_secret_version :
    Primitives → ℕ → ℕ → ℕ → Request → CurrentUser → Draw → Db → Result (SecretUpdateResponse × Db)
restore_secret_version prims max_secret_versions secret_id version request who draw db = do
  (secret, old, old_key) ← check_restore max_secret_versions secret_id version who db
  dek ← get_dek_for_secret prims secret_id (some old_key) db.secret_keys
  plaintext ← decrypt_content prims old.content old.nonce dek
  let new_version = secret.current_version + 1
  (key_version, db1) ←
      insert_text_version prims secret_id new_version plaintext who.id
        (some ("Restored version " ++ decimal version)) draw request.now db
  ok (
    record { secret_id = secret_id; version = new_version; updated_at = request.now },
    log_last "info" (restore_entry secret_id version new_version request who) request.now db db1,
  )
