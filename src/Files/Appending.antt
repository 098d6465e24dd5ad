-- ===== src/Files/Appending.antt =====
-- What the transaction of `update_file_secret` leaves.
use mathlib.Core.Path.{subst}
use phantom_share.Prelude.{ℕ, ◌+◌, ◌≡◌, refl, sym, true, false, some, ==-self, arith}
use phantom_share.Result.{ok, err, http, >>=-eq-ok, or_raise-bind-eq-ok}
use phantom_share.Sql.{select_one, exists, max_of}
use phantom_share.Sql.Laws.{
  select_one-insert_new, select_one-insert_old, select_one-update_self, exists-select_one,
}
use phantom_share.Schema.{Db, SecretRow, VersionRow, secret_is, user_is, key_of, version_is}
use phantom_share.Permissions.{CurrentUser}
use phantom_share.Crypto.{Primitives}
use phantom_share.Audit.{log_last}
use phantom_share.Audit.Laws.{log_last_keeps}
use phantom_share.Keys.{version_number}
use phantom_share.Versions.Inserts.{Request}
use phantom_share.Files.Form.{FileDraw, Stored, file_version}
use phantom_share.Files.Revise.{
  FileUpdate, check_revision, write_revision, revise, at_version, updated_entry,
}

module _ (prims : Primitives) (id : ℕ) (body : FileUpdate) (drawn : FileDraw) (request : Request)
    (who : CurrentUser) (stored : Stored) where
  abbrev pub next : ℕ
  next = body.expected_version + 1

  abbrev pub next_key : Db → ℕ
  next_key db = max_of (key_of id) version_number db.secret_keys + 1

  -- The row of the secret at the expected version, and at the next one in `db'`; the next version
  -- is the file that was stored, and the versions of `db` are in `db'` as they were.
  pub record Appended (db db' : Db) : Type 0 where
    pub row : SecretRow
    pub found : select_one (secret_is id) db.secrets ≡ some row
    pub expected : row.current_version ≡ body.expected_version
    pub now_at_next : select_one (secret_is id) db'.secrets ≡ some (at_version next request.now row)
    pub stored_there :
        select_one (version_is id next) db'.secret_versions
        ≡ some (
            file_version id next
              (next_key db)
              stored
              body.content_type
              who.id
              body.change_note
              request.now)
    pub kept :
        (j v : ℕ) (old : VersionRow)
        → select_one (version_is j v) db.secret_versions ≡ some old
        → select_one (version_is j v) db'.secret_versions ≡ some old

  check_revision-facts :
      (db : Db) {u : Unit {0}}
      → check_revision prims id body drawn request who stored db ≡ ok u
      → (row : SecretRow) × (select_one (secret_is id) db.secrets ≡ some row)
        × (row.current_version ≡ body.expected_version)
        × (exists (version_is id next) db.secret_versions ≡ false)
  unfolding check_revision
  check_revision-facts db {u} h =
      let (row, found, h1) =
        or_raise-bind-eq-ok (select_one (secret_is id) db.secrets)
          (http 409 "Secret changed during upload") _ {b = u} h in
      (row, found, ground arith, ground arith)

  written-Appended :
      (db : Db) {row : SecretRow}
      → select_one (secret_is id) db.secrets ≡ some row
      → row.current_version ≡ body.expected_version
      → exists (version_is id next) db.secret_versions ≡ false
      → Appended db (write_revision prims id body drawn request who stored db)
  unfolding write_revision
  written-Appended db {row} found same fresh = record {
    row = row;
    found = found;
    expected = same;
    now_at_next =
        select_one-update_self (secret_is id) (at_version next request.now) db.secrets (λ r. refl)
          found;
    stored_there =
        select_one-insert_new (version_is id next)
          (file_version id next (next_key db) stored body.content_type who.id body.change_note
            request.now)
          db.secret_versions fresh (rw (==-self id, ==-self next));
    kept = λ j v old e.
        select_one-insert_old (version_is j v)
          (file_version id next (next_key db) stored body.content_type who.id body.change_note
            request.now)
          db.secret_versions e;
  }

  known_still :
      (db : Db)
      → exists (user_is who.id) db.users ≡ true
      → exists (user_is who.id) (write_revision prims id body drawn request who stored db).users
        ≡ true
  unfolding write_revision
  known_still db h = h

  inet_still :
      (db : Db)
      → db.is_inet request.client_ip ≡ true
      → (write_revision prims id body drawn request who stored db).is_inet request.client_ip ≡ true
  unfolding write_revision
  inet_still db h = h

  Appended-logged :
      (db db1 db' : Db)
      → db' ≡ record db1 { audit_logs = db'.audit_logs }
      → Appended db db1
      → Appended db db'
  Appended-logged db db1 db' e a = subst (Appended db) (sym e) (record {
    row = a.row;
    found = a.found;
    expected = a.expected;
    now_at_next = a.now_at_next;
    stored_there = a.stored_there;
    kept = a.kept;
  })

pub revise-Appended :
    (prims : Primitives) (id : ℕ) (body : FileUpdate) (drawn : FileDraw) (request : Request)
    (who : CurrentUser) (stored : Stored) (db : Db) {db' : Db}
    → exists (user_is who.id) db.users ≡ true
    → db.is_inet request.client_ip ≡ true
    → revise prims id body drawn request who stored db ≡ ok (tt, db')
    → Appended prims id body drawn request who stored db db'
unfolding revise
revise-Appended prims id body drawn request who stored db {db'} known inet h =
    let (u, checked, h1) =
      >>=-eq-ok (check_revision prims id body drawn request who stored db) _ {b = (tt, db')} h in
    let (row, found, same, fresh) =
      check_revision-facts prims id body drawn request who stored db {u = u} checked in
    let a = written-Appended prims id body drawn request who stored db found same fresh in
    let db1 = write_revision prims id body drawn request who stored db in
    let entry = updated_entry id who.id (body.expected_version + 1) request stored.size in
    let written : log_last "info" entry request.now db db1 ≡ db' = cc in
    Appended-logged prims id body drawn request who stored db db1 db'
      (log_last_keeps "info" entry request.now db db1
        (inet_still prims id body drawn request who stored db inet)
        (known_still prims id body drawn request who stored db known)
        (exists-select_one (secret_is id) db1.secrets a.now_at_next) written)
      a

-- Of two updates of a file that expect the same version, the first by a known user whose address the database takes and successful,
-- the second is refused by 409.
revise_twice :
    (prims : Primitives) (id : ℕ) (body other : FileUpdate) (drawn drawn' : FileDraw)
    (request request' : Request) (who who' : CurrentUser) (stored stored' : Stored) (db : Db)
    {db' : Db}
    → exists (user_is who.id) db.users ≡ true
    → db.is_inet request.client_ip ≡ true
    → body.expected_version ≡ other.expected_version
    → revise prims id body drawn request who stored db ≡ ok (tt, db')
    → revise prims id other drawn' request' who' stored' db'
      ≡ err (http 409 "Secret changed during upload")
unfolding revise check_revision
revise_twice prims id body other drawn drawn' request request' who who' stored stored' db {db'}
      known inet same h =
    let a = revise-Appended prims id body drawn request who stored db known inet h in
    rw a.now_at_next (ground arith)
