-- ===== src/Content.antt =====
-- The text of a secret as the tables hold it: the view that the operations of key_service.py and
-- secret_versions.py are specified by.
pub mod Laws
use phantom_share.Prelude.{ℕ, ◌≤◌, ◌≡◌, String, Option, none, some}
use phantom_share.Result.{Exn, value_error, secret_not_found, no_key, Result, ◌>>=◌, or_raise}
use phantom_share.Sql.{select_one, select_top, max_of}
use phantom_share.Schema.{
  Db, SecretRow, KeyRow, VersionRow, secret_is, key_of, key_is, version_of, version_is,
}
use phantom_share.Crypto.{Primitives, decrypt_content}
use phantom_share.Keys.{version_number, get_dek_for_secret}

abbrev pub number : VersionRow → ℕ
number v = v.version

module _ (prims : Primitives) where
  -- The current text, decrypted under the latest key.
  unfoldable pub open_current : ℕ → Db → Result String
  open_current id db = do
    row ← or_raise (select_one (secret_is id) db.secrets) (value_error secret_not_found)
    dek ← get_dek_for_secret prims id none db.secret_keys
    decrypt_content prims row.content row.nonce dek

  -- The text of one version, decrypted under the key that the version names.
  unfoldable pub open_version : ℕ → ℕ → Db → Result String
  open_version id v db = do
    row ← or_raise (select_one (version_is id v) db.secret_versions) (value_error secret_not_found)
    key_version ← or_raise row.key_version (value_error no_key)
    dek ← get_dek_for_secret prims id (some key_version) db.secret_keys
    decrypt_content prims row.content row.nonce dek

-- A secret that the server encrypts: its row agrees with its current version, which names the
-- latest key, and no version lies beyond the current one.
pub record IsManaged (id : ℕ) (db : Db) : Type 0 where
  pub secret : SecretRow
  pub secret_found : select_one (secret_is id) db.secrets ≡ some secret
  pub current : VersionRow
  pub current_found :
      select_one (version_is id secret.current_version) db.secret_versions ≡ some current
  pub same_content : current.content ≡ secret.content
  pub same_nonce : current.nonce ≡ secret.nonce
  pub key : KeyRow
  pub latest_key : select_top (key_of id) version_number db.secret_keys ≡ some key
  pub key_found : select_one (key_is id key.version) db.secret_keys ≡ some key
  pub key_named : current.key_version ≡ some key.version
  pub last_version : max_of (version_of id) number db.secret_versions ≤ secret.current_version
