-- ===== src/Versions/Inserts.antt =====
-- The requests and answers of app/routers/secret_versions.py, and the writes of a new version.
use phantom_share.Prelude.{ℕ, String, Bool, Option, none, some, length}
use phantom_share.Result.{database_error, Result, ok, ◌>>◌, raise_if}
use phantom_share.Sql.{insert, update, exists}
use phantom_share.Schema.{Db, VersionRow, Payload, text, file, secret_is, version_is}
use phantom_share.Crypto.{Primitives, Draw, encrypt_content}
use phantom_share.Keys.{create_version_key}

-- What a handler reads from the request: the client's address and the time.
pub record Request : Type 0 where
  pub client_ip : String
  pub now : ℕ

pub record SecretUpdate : Type 0 where
  pub content : String
  pub expected_version : ℕ
  pub change_note : Option String

pub record SecretUpdateResponse : Type 0 where
  pub secret_id : ℕ
  pub version : ℕ
  pub updated_at : ℕ

pub record SecretVersionItem : Type 0 where
  pub version : ℕ
  pub plaintext_size : ℕ
  pub created_by : Option ℕ
  pub change_note : Option String
  pub created_at : ℕ
  pub is_current : Bool

abbrev pub is_file : Payload → Bool
is_file text = Bool.false
is_file file = Bool.true

abbrev pub key_version_of : Option VersionRow → Option ℕ
key_version_of none = none
key_version_of (some v) = v.key_version

-- The row of the INSERT of `_insert_text_version`.
abbrev pub text_version : ℕ → ℕ → String × String → ℕ → ℕ → ℕ → Option String → ℕ → VersionRow
text_version secret_id version (ciphertext, nonce) key_version size actor_id change_note now =
    record {
      secret_id = secret_id;
      version = version;
      payload_type = text;
      content = some ciphertext;
      nonce = some nonce;
      key_version = some key_version;
      plaintext_size = size;
      created_by = some actor_id;
      change_note = change_note;
      object_key = none;
      encrypted_size = 0;
      filename_ciphertext = none;
      filename_nonce = none;
      media_type = none;
      content_sha256 = none;
      clamav_version = none;
      scanned_at = none;
      created_at = now;
    }

module _ (prims : Primitives) where
  -- The three writes of `_insert_text_version`: a key, a version and the row of the secret.
  unfoldable pub write_text_version : ℕ → ℕ → String → ℕ → Option String → Draw → ℕ → Db → ℕ × Db
  unfolding create_version_key
  write_text_version secret_id version plaintext actor_id change_note draw now db =
      let (dek, key_version, db1) = create_version_key prims secret_id draw now db in
      let (ciphertext, nonce) = encrypt_content prims plaintext dek draw.nonce in
      (
        key_version,
        record db1 {
          secret_versions =
              insert
                (text_version secret_id version (ciphertext, nonce) key_version
                  (length (prims.encode plaintext)) actor_id change_note now)
                db1.secret_versions;
          secrets =
              update (secret_is secret_id)
                (λ r. record r {
                  content = some ciphertext;
                  nonce = some nonce;
                  current_version = version;
                  updated_at = now;
                })
                db1.secrets;
        },
      )

  -- `_insert_text_version`: its INSERT raises where the primary key (secret_id, version) is taken.
  unfoldable pub insert_text_version :
      ℕ → ℕ → String → ℕ → Option String → Draw → ℕ → Db → Result (ℕ × Db)
  insert_text_version secret_id version plaintext actor_id change_note draw now db = do
    raise_if (exists (version_is secret_id version) db.secret_versions) database_error
    ok (write_text_version secret_id version plaintext actor_id change_note draw now db)
