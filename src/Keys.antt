-- ===== src/Keys.antt =====
-- app/services/key_service.py: the keys of a secret, one row for each key version.
pub mod Rotation
use phantom_share.Prelude.{ℕ, ◌+◌, String, Option, none, some, List, ◌∷◌}
use phantom_share.Result.{
  Exn, value_error, type_error, secret_not_found, no_key, Result, ok, err, ◌>>=◌, or_raise,
}
use phantom_share.Sql.{select_one, select_top, max_of, insert, update}
use phantom_share.Schema.{Db, SecretRow, KeyRow, VersionRow, key_of, key_is, secret_is, version_is}
use phantom_share.Crypto.{
  Bytes, Primitives, Draw, wrap_dek, unwrap_dek, encrypt_content, decrypt_content,
}

abbrev pub version_number : KeyRow → ℕ
version_number k = k.version

-- The SET of the UPDATE of secret_versions.
abbrev pub rekeyed : String × String → ℕ → VersionRow → VersionRow
rekeyed (ciphertext, nonce) key_version r = record r {
  content = some ciphertext;
  nonce = some nonce;
  key_version = some key_version;
}

module _ (prims : Primitives) where
  -- The row of the INSERT into secret_keys.
  abbrev pub new_key : ℕ → Draw → ℕ → Option ℕ → KeyRow
  new_key secret_id draw version rotated_at =
      let (wrapped_dek, dek_nonce) = wrap_dek prims draw.dek draw.dek_nonce in
      record {
        secret_id = secret_id;
        wrapped_dek = wrapped_dek;
        dek_nonce = dek_nonce;
        version = version;
        rotated_at = rotated_at;
      }

  -- The first key of a secret.
  unfoldable pub create_key_for_secret : ℕ → Draw → Db → Bytes × KeyRow × Db
  create_key_for_secret secret_id draw db =
      let key = new_key secret_id draw 1 none in
      (draw.dek, key, record db { secret_keys = insert key db.secret_keys })

  -- INSERT … SELECT COALESCE(MAX(version), 0) + 1 … RETURNING version.
  unfoldable pub create_version_key : ℕ → Draw → ℕ → Db → Bytes × ℕ × Db
  create_version_key secret_id draw now db =
      let version = max_of (key_of secret_id) version_number db.secret_keys + 1 in
      (
        draw.dek,
        version,
        record db {
          secret_keys = insert (new_key secret_id draw version (some now)) db.secret_keys;
        },
      )

  abbrev find_key : ℕ → Option ℕ → List KeyRow → Option KeyRow
  find_key secret_id none keys = select_top (key_of secret_id) version_number keys
  find_key secret_id (some v) keys = select_one (key_is secret_id v) keys

  unfoldable pub get_dek_for_secret : ℕ → Option ℕ → List KeyRow → Result Bytes
  get_dek_for_secret secret_id key_version keys = do
    row ← or_raise (find_key secret_id key_version keys) (value_error no_key)
    unwrap_dek prims row.wrapped_dek row.dek_nonce

  -- Steps 4 and 5 of `rotate_key`: a new key, and the text under it in the row of the secret and in
  -- its current version.
  unfoldable pub reencrypt : ℕ → SecretRow → String → Draw → ℕ → Db → ℕ × Db
  reencrypt secret_id secret_row plaintext draw now db =
      let (new_dek, new_version, db') = create_version_key secret_id draw now db in
      let (new_ciphertext, new_nonce) = encrypt_content prims plaintext new_dek draw.nonce in
      (
        new_version,
        record db' {
          secrets =
              update (secret_is secret_id)
                (λ r. record r { content = some new_ciphertext; nonce = some new_nonce })
                db'.secrets;
          secret_versions =
              update (version_is secret_id secret_row.current_version)
                (rekeyed (new_ciphertext, new_nonce) new_version) db'.secret_versions;
        },
      )

  -- The transaction of `rotate_key`.
  unfoldable pub rotate_key : ℕ → Draw → ℕ → Db → Result (ℕ × Db)
  rotate_key secret_id draw now db = do
    secret_row ←
        or_raise (select_one (secret_is secret_id) db.secrets) (value_error secret_not_found)
    old_dek ← get_dek_for_secret secret_id none db.secret_keys
    plaintext ← decrypt_content prims secret_row.content secret_row.nonce old_dek
    ok (reencrypt secret_id secret_row plaintext draw now db)
