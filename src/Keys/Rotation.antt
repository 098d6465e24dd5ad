-- ===== src/Keys/Rotation.antt =====
-- `rotate_key` re-encrypts: it gives a secret a new key and leaves every text readable.
use phantom_share.Prelude.{
  ℕ, ◌+◌, ◌≡◌, refl, sym, ◌∙◌, String, false, inl, inr, some, none, arith, ◌==◌, ==→≡, Bool-cases,
}
use mathlib.Core.Path.{subst}
use phantom_share.Result.{ok, or_raise, >>=-eq-ok, or_raise-eq-ok, ok-value, ok-state}
use phantom_share.Sql.{select_one, max_of, exists}
use phantom_share.Sql.Laws.{
  select_one-insert_old, select_one-insert_new, select_one-update_self, select_one-update_ne,
  select_one_sound,
}
use phantom_share.Sql.Counting.{select_top-insert, max_of-update, exists-max_of}
use phantom_share.Schema.{
  Db, SecretRow, KeyRow, VersionRow, secret_is, key_of, key_is, version_is, version_of,
}
use phantom_share.Crypto.{Bytes, Primitives, Draw, encrypt_content, decrypt_content}
use phantom_share.Crypto.Laws.{unwrap_dek-wrap_dek, decrypt_content-encrypt_content}
use phantom_share.Keys.{
  version_number, new_key, get_dek_for_secret, create_version_key, rotate_key, reencrypt, rekeyed,
}
use phantom_share.Content.{open_current, open_version, IsManaged, number}
use phantom_share.Content.Laws.{open_current-open_version, open_version_keeps}

-- The number of the next key of a secret is free.
pub key_free :
    (id : ℕ) (db : Db)
    → exists (key_is id (max_of (key_of id) version_number db.secret_keys + 1)) db.secret_keys
      ≡ false
key_free id db =
    let n = max_of (key_of id) version_number db.secret_keys in
    exists-max_of (key_of id) (key_is id (n + 1)) version_number (n + 1) db.secret_keys
      (λ r e. ground arith) (omega arith)

module _ (prims : Primitives) (id : ℕ) (plaintext : String) (draw : Draw) (now : ℕ) (db : Db)
    (m : IsManaged id db) where
  abbrev rotated : ℕ × Db
  rotated = reencrypt prims id m.secret plaintext draw now db

  abbrev cipher : String × String
  cipher = encrypt_content prims plaintext draw.dek draw.nonce

  abbrev key_number : ℕ
  key_number = max_of (key_of id) version_number db.secret_keys + 1

  pub rotated-IsManaged : IsManaged id rotated.1
  unfolding reencrypt create_version_key
  rotated-IsManaged = record {
    secret = record m.secret { content = some cipher.0; nonce = some cipher.1 };
    secret_found = select_one-update_self (secret_is id) _ db.secrets (λ r. refl) m.secret_found;
    current = record m.current {
      content = some cipher.0;
      nonce = some cipher.1;
      key_version = some key_number;
    };
    current_found =
        select_one-update_self (version_is id m.secret.current_version) _ db.secret_versions
          (λ r. refl) m.current_found;
    same_content = refl;
    same_nonce = refl;
    key = new_key prims id draw key_number (some now);
    latest_key =
        select_top-insert (key_of id) version_number _ db.secret_keys (ground arith) (omega arith);
    key_found =
        select_one-insert_new (key_is id key_number) _ db.secret_keys (key_free id db)
          (ground arith);
    key_named = refl;
    last_version =
        rw
          (max_of-update (version_of id) number (version_is id m.secret.current_version)
            (rekeyed cipher key_number) db.secret_versions (λ r. refl) (λ r. refl))
          m.last_version;
  }

  pub rotated-open_current : open_current prims id rotated.1 ≡ ok plaintext
  unfolding open_current get_dek_for_secret rotated-IsManaged
  rotated-open_current =
      rw (rotated-IsManaged.secret_found, rotated-IsManaged.latest_key)
        (rw (unwrap_dek-wrap_dek prims draw.dek draw.dek_nonce)
          (decrypt_content-encrypt_content prims plaintext draw.dek draw.nonce))

  rotated_current : open_version prims id m.secret.current_version rotated.1 ≡ ok plaintext
  unfolding rotated-IsManaged
  rotated_current =
      sym (open_current-open_version prims id rotated.1 rotated-IsManaged) ∙ rotated-open_current

  -- A version other than the current one is found as before.
  rotated_other :
      (v : ℕ)
      → (v == m.secret.current_version) ≡ false
      → (r : VersionRow) → select_one (version_is id v) db.secret_versions ≡ some r
      → select_one (version_is id v) rotated.1.secret_versions ≡ some r
  unfolding reencrypt create_version_key
  rotated_other v ne r found =
      let at = select_one_sound (version_is id v) db.secret_versions found in
      select_one-update_ne (version_is id v) (version_is id m.secret.current_version) _
        db.secret_versions (λ s. refl) (ground arith) found

  rotated_key :
      (k : ℕ) (r : KeyRow)
      → select_one (key_is id k) db.secret_keys ≡ some r
      → select_one (key_is id k) rotated.1.secret_keys ≡ some r
  unfolding reencrypt create_version_key
  rotated_key k r = select_one-insert_old (key_is id k) _ db.secret_keys

  -- Where the text that is encrypted anew is the current one, every version stays readable.
  rotated-open_version :
      open_current prims id db ≡ ok plaintext
      → (v : ℕ) (p : String) → open_version prims id v db ≡ ok p
      → open_version prims id v rotated.1 ≡ ok p
  rotated-open_version shown v p h = elim (Bool-cases (v == m.secret.current_version)) [
    | inl same ↦
        let e : v ≡ m.secret.current_version = ==→≡ v m.secret.current_version same in
        let was : ok plaintext ≡ ok p =
          sym shown ∙ open_current-open_version prims id db m ∙ (rw e at h) in
        rw e (rotated_current ∙ was)
    | inr ne ↦ open_version_keeps prims id v db rotated.1 (rotated_other v ne) rotated_key h
  ]

-- What a re-encryption achieves: the row of the secret has a new ciphertext and is otherwise what it
-- was, and every text is the one it was.
pub record Rotated (prims : Primitives) (id : ℕ) (old : SecretRow) (db db' : Db) : Type 0 where
  pub managed : IsManaged id db'
  pub row :
      managed.secret ≡ record old { content = managed.secret.content; nonce = managed.secret.nonce }
  pub shown : open_current prims id db' ≡ open_current prims id db
  pub history :
      (v : ℕ) (p : String) → open_version prims id v db ≡ ok p → open_version prims id v db' ≡ ok p

rotated-Rotated :
    (prims : Primitives) (id : ℕ) (p : String) (draw : Draw) (now : ℕ) (db : Db)
    (m : IsManaged id db)
    → open_current prims id db ≡ ok p
    → Rotated prims id m.secret db (rotated prims id p draw now db m).1
unfolding rotated-IsManaged
rotated-Rotated prims id p draw now db m opens = record {
  managed = rotated-IsManaged prims id p draw now db m;
  row = refl;
  shown = rotated-open_current prims id p draw now db m ∙ sym opens;
  history = rotated-open_version prims id p draw now db m opens;
}

module _ (prims : Primitives) (id : ℕ) (draw : Draw) (now : ℕ) (db : Db) (m : IsManaged id db) where
  open_managed :
      {dek : Bytes} {p : String}
      → get_dek_for_secret prims id none db.secret_keys ≡ ok dek
      → decrypt_content prims m.secret.content m.secret.nonce dek ≡ ok p
      → open_current prims id db ≡ ok p
  unfolding open_current
  open_managed found shown = rw m.secret_found (rw found shown)

  -- A rotation of a managed secret that succeeds gives it a key with the next number. The secret stays
  -- managed, a reader is shown the same text, and every version stays readable with the text it had.
  pub rotate_key-Rotated :
      {n : ℕ} {db' : Db}
      → rotate_key prims id draw now db ≡ ok (n, db')
      → (n ≡ max_of (key_of id) version_number db.secret_keys + 1)
        × Rotated prims id m.secret db db'
  unfolding rotate_key reencrypt create_version_key
  rotate_key-Rotated {n} {db'} h =
      let (row, found, u) =
        >>=-eq-ok (or_raise (select_one (secret_is id) db.secrets) _) _ {b = (n, db')} h in
      let same : row ≡ m.secret = cc (m.secret_found, or_raise-eq-ok _ _ found) in
      let (dek, got, u2) =
        >>=-eq-ok (get_dek_for_secret prims id none db.secret_keys) _ {b = (n, db')}
          (rw same at u) in
      let (p, shown, answer) =
        >>=-eq-ok (decrypt_content prims m.secret.content m.secret.nonce dek) _ {b = (n, db')} u2 in
      let opens = open_managed got shown in
      (
        sym (ok-value answer) ∙ rotated_number p,
        subst (Rotated prims id m.secret db) (ok-state answer)
            (rotated-Rotated prims id p draw now db m opens),
      )
    where
      rotated_number :
          (p : String)
          → (reencrypt prims id m.secret p draw now db).0
            ≡ max_of (key_of id) version_number db.secret_keys + 1
      rotated_number p = refl
