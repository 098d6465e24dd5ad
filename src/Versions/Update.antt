-- ===== src/Versions/Update.antt =====
-- `update_secret`: optimistic concurrency on the version number, and a history that only grows.
use phantom_share.Prelude.{ℕ, ◌+◌, ◌<◌, ◌≡◌, refl, sym, ap, String, true, Option, some, arith}
use phantom_share.Result.{ok, >>=-eq-ok, ok-value, ok-state}
use phantom_share.Sql.{select_one, exists}
use phantom_share.Sql.Laws.{exists-select_one}
use phantom_share.Schema.{Db, SecretRow, secret_is, user_is, text}
use phantom_share.Permissions.{CurrentUser, require_owns_secret}
use phantom_share.Crypto.{Primitives, Draw}
use phantom_share.Audit.{Entry, log_last}
use phantom_share.Audit.Laws.{log_last_keeps}
use phantom_share.Content.{open_current, open_version, IsManaged}
use phantom_share.Versions.{check_update, update_secret}
use phantom_share.Versions.Inserts.{
  Request, SecretUpdate, SecretUpdateResponse, insert_text_version, write_text_version,
}
use phantom_share.Versions.Laws.{
  version_free, written-IsManaged, written-open_current, written-open_version,
}
use mathlib.Core.Path.{subst}

-- What a write of a new version achieves: the row of the secret has a new text and the next version
-- number and is otherwise what it was, a reader is shown the text, and older versions stay readable.
pub record Appended (prims : Primitives) (id : ℕ) (plaintext : String) (old : SecretRow)
    (db db' : Db) : Type 0 where
  pub managed : IsManaged id db'
  pub row : managed.secret ≡ record old {
    content = managed.secret.content;
    nonce = managed.secret.nonce;
    current_version = old.current_version + 1;
    updated_at = managed.secret.updated_at;
  }
  pub shown : open_current prims id db' ≡ ok plaintext
  pub history :
      (v : ℕ) (p : String) → open_version prims id v db ≡ ok p → open_version prims id v db' ≡ ok p

module _ (prims : Primitives) (id : ℕ) (db : Db) (m : IsManaged id db) where
  -- The write raises nothing for the next version of a managed secret.
  pub insert_text_version-Appended :
      (plaintext : String) (actor : ℕ) (note : Option String) (draw : Draw) (now : ℕ)
      → insert_text_version prims id (m.secret.current_version + 1) plaintext actor note draw now db
        ≡ ok (
            write_text_version prims id
              (m.secret.current_version + 1)
              plaintext
              actor
              note
              draw
              now
              db)
  unfolding insert_text_version
  insert_text_version-Appended plaintext actor note draw now =
      rw (version_free prims id plaintext actor note draw now db m)

pub written-Appended :
    (prims : Primitives) (id : ℕ) (db : Db) (m : IsManaged id db) (plaintext : String) (actor : ℕ)
    (note : Option String) (draw : Draw) (now : ℕ)
    → Appended prims id plaintext m.secret db
        (write_text_version prims id
          (m.secret.current_version + 1)
          plaintext
          actor
          note
          draw
          now
          db).1
unfolding written-IsManaged
written-Appended prims id db m plaintext actor note draw now = record {
  managed = written-IsManaged prims id plaintext actor note draw now db m;
  row = refl;
  shown = written-open_current prims id plaintext actor note draw now db m;
  history = λ v p. written-open_version prims id plaintext actor note draw now db m v;
}

-- What changes the audit log only keeps a new version.
pub Appended-audit :
    (prims : Primitives) (id : ℕ) (plaintext : String) (old : SecretRow) (db db1 db2 : Db)
    → db2 ≡ record db1 { audit_logs = db2.audit_logs }
    → Appended prims id plaintext old db db1
    → Appended prims id plaintext old db db2
unfolding open_current open_version
Appended-audit prims id plaintext old db db1 db2 e a =
    subst (Appended prims id plaintext old db) (sym e) (record {
      managed = record {
        secret = a.managed.secret;
        secret_found = a.managed.secret_found;
        current = a.managed.current;
        current_found = a.managed.current_found;
        same_content = a.managed.same_content;
        same_nonce = a.managed.same_nonce;
        key = a.managed.key;
        latest_key = a.managed.latest_key;
        key_found = a.managed.key_found;
        key_named = a.managed.key_named;
        last_version = a.managed.last_version;
      };
      row = a.row;
      shown = a.shown;
      history = a.history;
    })

-- The entry of a written version goes in where its actor is a user.
pub written-kept :
    (prims : Primitives) (id : ℕ) (db : Db) (m : IsManaged id db) (plaintext : String) (actor : ℕ)
    (note : Option String) (draw : Draw) (now : ℕ) (e : Entry) (ip : String) {db' : Db}
    → e.actor_ip ≡ some ip
    → e.actor_id ≡ some actor
    → e.secret_id ≡ some id
    → exists (user_is actor) db.users ≡ true
    → db.is_inet ip ≡ true
    → log_last "info" e now db
        (write_text_version prims id
          (m.secret.current_version + 1)
          plaintext
          actor
          note
          draw
          now
          db).1
      ≡ db'
    → Appended prims id plaintext m.secret db db'
unfolding write_text_version
written-kept prims id db m plaintext actor note draw now e ip {db'} hi ha hs known inet h =
    Appended-audit prims id plaintext m.secret db _ db'
      (log_last_keeps "info" e now db _ (rw hi inet) (rw ha known)
        (rw hs (
          exists-select_one (secret_is id) _
            (written-IsManaged prims id plaintext actor note draw now db m).secret_found))
        h)
      (written-Appended prims id db m plaintext actor note draw now)

module _ (max : ℕ) (id : ℕ) (body : SecretUpdate) (request : Request) (who : CurrentUser)
    (db : Db) where
  -- The guards of an update pass only on a row that is the caller's to manage, that has not expired,
  -- that holds text and that stands at the version which the caller expects.
  pub check_update_sound :
      {row : SecretRow}
      → check_update max id body request who db ≡ ok row
      → (select_one (secret_is id) db.secrets ≡ some row)
        × (require_owns_secret row.owner_id who ≡ ok tt)
        × (request.now < row.expires_at)
        × (row.payload_type ≡ text)
        × (row.current_version ≡ body.expected_version)
        × (row.current_version < max)
  unfolding check_update
  check_update_sound h = ground arith

same_number : {r s : SecretRow} {n : ℕ} → r ≡ s → r.current_version ≡ n → s.current_version ≡ n
same_number e h = cc

module _ (prims : Primitives) (max : ℕ) (id : ℕ) (body : SecretUpdate) (request : Request)
    (who : CurrentUser) (draw : Draw) (db : Db) (m : IsManaged id db) where
  -- An update of a managed secret by a known user, from an address that the database takes, that
  -- succeeds was made against the current version.
  -- It appends the next version with the given text, keeps the secret managed and keeps every older
  -- text readable.
  pub update_secret-Appended :
      {resp : SecretUpdateResponse} {db' : Db}
      → exists (user_is who.id) db.users ≡ true
      → db.is_inet request.client_ip ≡ true
      → update_secret prims max id body request who draw db ≡ ok (resp, db')
      → (m.secret.current_version ≡ body.expected_version)
        × (resp.version ≡ body.expected_version + 1)
        × Appended prims id body.content m.secret db db'
  unfolding update_secret
  update_secret-Appended {resp} {db'} known inet h =
      let (row, checked, u) =
        >>=-eq-ok (check_update max id body request who db) _ {b = (resp, db')} h in
      let guards = check_update_sound max id body request who db checked in
      let same : row ≡ m.secret = cc (m.secret_found, guards.0) in
      let answer =
        rw
          (insert_text_version-Appended prims id db m body.content who.id body.change_note draw
            request.now)
          at (rw same at u) in
      (
        same_number same guards.4,
        cc (
          ap (λ (v : ℕ). v + 1) (same_number same guards.4),
          ap (λ (r : SecretUpdateResponse). r.version) (sym (ok-value answer)),
        ),
        written-kept prims id db m body.content who.id body.change_note draw request.now _
            request.client_ip refl refl refl known inet (ok-state answer),
      )
