-- ===== src/Versions/Laws.antt =====
-- What writing a new version of a text secret does to the tables.
use phantom_share.Prelude.{ℕ, ◌+◌, ◌≡◌, refl, String, Option, false, some, arith, length}
use phantom_share.Result.{ok}
use phantom_share.Sql.{max_of, exists}
use phantom_share.Sql.Laws.{select_one-insert_old, select_one-insert_new, select_one-update_self}
use phantom_share.Sql.Counting.{select_top-insert, max_of-insert, exists-max_of}
use phantom_share.Schema.{Db, VersionRow, secret_is, key_of, key_is, version_is, version_of}
use phantom_share.Crypto.{Primitives, Draw, encrypt_content}
use phantom_share.Crypto.Laws.{unwrap_dek-wrap_dek, decrypt_content-encrypt_content}
use phantom_share.Keys.{version_number, get_dek_for_secret, new_key, create_version_key}
use phantom_share.Keys.Rotation.{key_free}
use phantom_share.Content.{open_current, open_version, IsManaged, number}
use phantom_share.Content.Laws.{open_version_keeps}
use phantom_share.Versions.Inserts.{text_version, write_text_version}

module _ (prims : Primitives) (id : ℕ) (plaintext : String) (actor : ℕ) (note : Option String)
    (draw : Draw) (now : ℕ) (db : Db) (m : IsManaged id db) where
  -- The primary key of the next version is free.
  pub version_free :
      exists (version_is id (m.secret.current_version + 1)) db.secret_versions ≡ false
  version_free =
      exists-max_of (version_of id) (version_is id (m.secret.current_version + 1)) number
        (m.secret.current_version + 1) db.secret_versions (λ r e. ground arith)
        (omega (arith, m.last_version))

  abbrev written : ℕ × Db
  written =
      write_text_version prims id (m.secret.current_version + 1) plaintext actor note draw now db

  abbrev cipher : String × String
  cipher = encrypt_content prims plaintext draw.dek draw.nonce

  abbrev key_number : ℕ
  key_number = max_of (key_of id) version_number db.secret_keys + 1

  abbrev new_version : VersionRow
  new_version =
      text_version id (m.secret.current_version + 1) cipher key_number
        (length (prims.encode plaintext)) actor note now

  -- A written version leaves a managed secret.
  unfoldable pub written-IsManaged : IsManaged id written.1
  unfolding write_text_version create_version_key
  written-IsManaged = record {
    secret = record m.secret {
      content = some cipher.0;
      nonce = some cipher.1;
      current_version = m.secret.current_version + 1;
      updated_at = now;
    };
    secret_found = select_one-update_self (secret_is id) _ db.secrets (λ r. refl) m.secret_found;
    current = new_version;
    current_found =
        select_one-insert_new (version_is id (m.secret.current_version + 1)) _ db.secret_versions
          version_free (ground arith);
    same_content = refl;
    same_nonce = refl;
    key = new_key prims id draw key_number (some now);
    latest_key =
        select_top-insert (key_of id) version_number _ db.secret_keys (ground arith) (omega arith);
    key_found =
        select_one-insert_new (key_is id key_number) _ db.secret_keys (key_free id db)
          (ground arith);
    key_named = refl;
    last_version =
        rw
          (max_of-insert (version_of id) number new_version db.secret_versions (ground arith)
            (omega (arith, m.last_version)))
          (omega arith);
  }

  -- A reader is shown the text that was written.
  pub written-open_current : open_current prims id written.1 ≡ ok plaintext
  unfolding open_current get_dek_for_secret written-IsManaged
  written-open_current =
      rw (written-IsManaged.secret_found, written-IsManaged.latest_key)
        (rw (unwrap_dek-wrap_dek prims draw.dek draw.dek_nonce)
          (decrypt_content-encrypt_content prims plaintext draw.dek draw.nonce))

  -- Every older version that could be opened still opens to the same text.
  pub written-open_version :
      (v : ℕ) {p : String}
      → open_version prims id v db ≡ ok p
      → open_version prims id v written.1 ≡ ok p
  unfolding write_text_version create_version_key
  written-open_version v =
      open_version_keeps prims id v db written.1
        (λ r. select_one-insert_old (version_is id v) _ db.secret_versions)
        (λ k r. select_one-insert_old (key_is id k) _ db.secret_keys)
