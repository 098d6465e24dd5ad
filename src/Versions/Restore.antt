-- ===== src/Versions/Restore.antt =====
-- `restore_secret_version`: an old text becomes the newest version.
use phantom_share.Prelude.{ℕ, ◌+◌, ◌<◌, ◌≡◌, refl, sym, ap, String, true, Option, some, arith}
use phantom_share.Result.{ok, >>=-eq-ok, ok-value, ok-state}
use phantom_share.Sql.{select_one, exists}
use phantom_share.Schema.{Db, SecretRow, VersionRow, secret_is, user_is, version_is}
use phantom_share.Permissions.{CurrentUser, require_owns_secret}
use phantom_share.Crypto.{Primitives, Draw, decrypt_content}
use phantom_share.Keys.{get_dek_for_secret}
use phantom_share.Text.{decimal, ◌++◌}
use phantom_share.Content.{open_version, IsManaged}
use phantom_share.Versions.{check_restore, restore_secret_version}
use phantom_share.Versions.Inserts.{Request, SecretUpdateResponse}
use phantom_share.Versions.Update.{Appended, written-kept, insert_text_version-Appended}

module _ (max : ℕ) (id version : ℕ) (who : CurrentUser) (db : Db) where
  pub check_restore_sound :
      {secret : SecretRow} {old : VersionRow} {key : ℕ}
      → check_restore max id version who db ≡ ok (secret, old, key)
      → (select_one (secret_is id) db.secrets ≡ some secret)
        × (require_owns_secret secret.owner_id who ≡ ok tt)
        × (secret.current_version < max)
        × (select_one (version_is id version) db.secret_versions ≡ some old)
        × (old.key_version ≡ some key)
  unfolding check_restore
  check_restore_sound h = ground arith

module _ (prims : Primitives) (max : ℕ) (id version : ℕ) (request : Request) (who : CurrentUser)
    (draw : Draw) (db : Db) (m : IsManaged id db) where
  -- The text that the restored version opens to is the one that is written.
  opened :
      {secret : SecretRow} {old : VersionRow} {key : ℕ} {dek : _} {p : String}
      → check_restore max id version who db ≡ ok (secret, old, key)
      → get_dek_for_secret prims id (some key) db.secret_keys ≡ ok dek
      → decrypt_content prims old.content old.nonce dek ≡ ok p
      → open_version prims id version db ≡ ok p
  unfolding open_version
  opened checked found shown =
      let guards = check_restore_sound max id version who db checked in
      rw (guards.3) (rw (guards.4) (rw found shown))

  -- A restoration of a managed secret by a known user, from an address that the database takes, that
  -- succeeds appends the next version, and its
  -- text is that of the version which the caller named. The secret stays managed and every older text
  -- stays readable.
  pub restore_secret_version-Appended :
      {resp : SecretUpdateResponse} {db' : Db}
      → exists (user_is who.id) db.users ≡ true
      → db.is_inet request.client_ip ≡ true
      → restore_secret_version prims max id version request who draw db ≡ ok (resp, db')
      → (p : String) × (open_version prims id version db ≡ ok p)
        × (resp.version ≡ m.secret.current_version + 1)
        × Appended prims id p m.secret db db'
  unfolding restore_secret_version
  restore_secret_version-Appended {resp} {db'} known inet h =
      let ((secret, old, key), checked, u) =
        >>=-eq-ok (check_restore max id version who db) _ {b = (resp, db')} h in
      let (dek, found, u2) =
        >>=-eq-ok (get_dek_for_secret prims id (some key) db.secret_keys) _ {b = (resp, db')} u in
      let (p, shown, u3) =
        >>=-eq-ok (decrypt_content prims old.content old.nonce dek) _ {b = (resp, db')} u2 in
      let guards = check_restore_sound max id version who db checked in
      let same : secret ≡ m.secret = cc (m.secret_found, guards.0) in
      let note : Option String = some ("Restored version " ++ decimal version) in
      let answer =
        rw (insert_text_version-Appended prims id db m p who.id note draw request.now) at
          (rw same at u3) in
      (
        p,
        opened checked found shown,
        ap (λ (r : SecretUpdateResponse). r.version) (sym (ok-value answer)),
        written-kept prims id db m p who.id note draw request.now _ request.client_ip refl refl refl
            known inet (ok-state answer),
      )
