-- ===== src/Files/Views.antt =====
-- What a download of a file leaves of the views of its secret.
use phantom_share.Prelude.{
  ℕ, ◌+◌, ◌<◌, ◌≡◌, refl, sym, ap, ◌∙◌, String, true, false, Option, none, some, leb, arith,
}
use mathlib.Core.Path.{subst}
use phantom_share.Result.{ok, >>=-eq-ok}
use phantom_share.Sql.{select_one, exists}
use phantom_share.Sql.Laws.{exists-delete_self, select_one-update_self, exists-select_one}
use phantom_share.Schema.{Db, SecretRow, VersionRow, secret_is, delete_secrets}
use phantom_share.Permissions.{CurrentUser}
use phantom_share.Crypto.{Bytes}
use phantom_share.Audit
use phantom_share.Audit.{log_last, insert_entry, or_same, is_known_user, is_known_secret}
use phantom_share.Audit.Laws.{log_last_keeps}
use phantom_share.Versions.Inserts.{Request}
use phantom_share.Secrets.Views.{count_view, counted, record_view, delete_if_fully_viewed, id_of}
use phantom_share.Files.Download.{
  FileServices, FileResponse, check_locked, open_file, write_view, serve_file, download_entry,
}

-- An entry whose secret is gone takes the transaction back.
log_last_gone :
    (severity : String) (now : ℕ) (start db : Db) (e : Audit.Entry)
    → is_known_secret e.secret_id db ≡ false
    → log_last severity e now start db ≡ start
unfolding log_last insert_entry
log_last_gone severity now start db e h = ground arith

count_view-gone :
    (id : ℕ) (row : SecretRow) (now : ℕ) (db : Db)
    → leb row.max_views (row.view_count + 1) ≡ true
    → exists (secret_is id) (count_view id row now db).secrets ≡ false
unfolding count_view delete_if_fully_viewed delete_secrets
count_view-gone id row now db last = rw last (exists-delete_self (secret_is id) _)

module _ (fs : FileServices) where
  -- The last view of a file is not counted: the writes leave the tables as they were.
  pub write_view-last :
      (id : ℕ) (row : SecretRow) (current_user : Option CurrentUser) (request : Request) (db : Db)
      → leb row.max_views (row.view_count + 1) ≡ true
      → write_view fs id row current_user request db ≡ db
  unfolding write_view
  write_view-last id row current_user request db last =
      log_last_gone "info" request.now db
        (count_view id row request.now
          (record_view id current_user row.current_version request.now db))
        (download_entry id row.current_version current_user request.client_ip)
        (count_view-gone id row request.now
          (record_view id current_user row.current_version request.now db) last)

  -- A download that returned, in its parts.
  serve_file-parts :
      (id version policy_version : ℕ) (object : Bytes) (current_user : Option CurrentUser)
      (request : Request) (db : Db) {r : FileResponse} {db' : Db}
      → serve_file fs id version policy_version object current_user request db ≡ ok (r, db')
      → (row : SecretRow) × (v : VersionRow) × (check_locked id version policy_version db
          ≡ ok (row, v))
        × (open_file fs id row v object db ≡ ok r)
        × (write_view fs id row current_user request db ≡ db')
  unfolding serve_file
  serve_file-parts id version policy_version object current_user request db {r} {db'} h =
      let ((row, v), hc, h1) =
        >>=-eq-ok (check_locked id version policy_version db) _ {b = (r, db')} h in
      let (response, ho, h2) = >>=-eq-ok (open_file fs id row v object db) _ {b = (r, db')} h1 in
      let same : ok response ≡ ok r = cc in (row, v, hc, ho ∙ same, cc)

  check_locked-row :
      (id version policy_version : ℕ) (db : Db) {row : SecretRow} {v : VersionRow}
      → check_locked id version policy_version db ≡ ok (row, v)
      → (select_one (secret_is id) db.secrets ≡ some row) × (row.view_count < row.max_views)
  unfolding check_locked
  check_locked-row id version policy_version db h = ground arith

  -- Where a file secret has one view left, a download that returns leaves the tables as they were:
  -- the view is not used up, and the same transaction returns the same file again.
  pub serve_file-last :
      (id version policy_version : ℕ) (object : Bytes) (current_user : Option CurrentUser)
      (request : Request) (db : Db) {row : SecretRow} {r : FileResponse} {db' : Db}
      → select_one (secret_is id) db.secrets ≡ some row
      → leb row.max_views (row.view_count + 1) ≡ true
      → serve_file fs id version policy_version object current_user request db ≡ ok (r, db')
      → (db' ≡ db)
        × (serve_file fs id version policy_version object current_user request db' ≡ ok (r, db'))
  serve_file-last id version policy_version object current_user request db {row} {r} {db'} hr last
        h =
      let (row', v, hc, ho, hw) =
        serve_file-parts id version policy_version object current_user request db h in
      let (found, few) = check_locked-row id version policy_version db hc in
      let same : row ≡ row' = cc in
      let unchanged : db ≡ db' =
        sym (
          write_view-last id row' current_user request db
            (subst (λ x. leb x.max_views (x.view_count + 1) ≡ true) same last))
        ∙ hw in
      (
        sym unchanged,
        subst
            (λ x.
              serve_file fs id version policy_version object current_user request x ≡ ok (r, db'))
            unchanged h,
      )

  count_view-counted :
      (id : ℕ) (row : SecretRow) (now : ℕ) (db : Db)
      → select_one (secret_is id) db.secrets ≡ some row
      → leb row.max_views (row.view_count + 1) ≡ false
      → (select_one (secret_is id) (count_view id row now db).secrets
          ≡ some (counted (row.view_count + 1) false row))
        × ((count_view id row now db).users ≡ db.users)
  unfolding count_view delete_if_fully_viewed
  count_view-counted id row now db found more = rw more (
    select_one-update_self (secret_is id) (counted (row.view_count + 1) false) db.secrets
        (λ _. refl) found,
    refl,
  )

  record_view-keeps :
      (id : ℕ) (current_user : Option CurrentUser) (version now : ℕ) (db : Db)
      → ((record_view id current_user version now db).secrets ≡ db.secrets)
        × ((record_view id current_user version now db).users ≡ db.users)
  unfolding record_view
  record_view-keeps id current_user version now db = ground arith

  is_inet-kept :
      (id : ℕ) (current_user : Option CurrentUser) (row : SecretRow) (now : ℕ) (db : Db)
      → (count_view id row now (record_view id current_user row.current_version now db)).is_inet
        ≡ db.is_inet
  unfolding count_view record_view delete_if_fully_viewed delete_secrets
  is_inet-kept id current_user row now db = ground arith

  known_by :
      (user : Option ℕ) (db db' : Db)
      → db'.users ≡ db.users
      → is_known_user user db ≡ true
      → is_known_user user db' ≡ true
  known_by none db db' e h = refl
  known_by (some id) db db' e h = rw e h

  write_view-counts :
      (id : ℕ) (row : SecretRow) (current_user : Option CurrentUser) (request : Request) (db : Db)
      → select_one (secret_is id) db.secrets ≡ some row
      → leb row.max_views (row.view_count + 1) ≡ false
      → is_known_user (id_of current_user) db ≡ true
      → db.is_inet request.client_ip ≡ true
      → select_one (secret_is id) (write_view fs id row current_user request db).secrets
        ≡ some (counted (row.view_count + 1) false row)
  unfolding write_view
  write_view-counts id row current_user request db hr more known inet =
      let viewed = record_view id current_user row.current_version request.now db in
      let (secrets_kept, users_kept) =
        record_view-keeps id current_user row.current_version request.now db in
      let (now_counted, users_counted) =
        count_view-counted id row request.now viewed (rw secrets_kept hr) more in
      let kept =
        log_last_keeps "info" (download_entry id row.current_version current_user request.client_ip)
          request.now db (count_view id row request.now viewed)
          (rw (is_inet-kept id current_user row request.now db) inet)
          (known_by (id_of current_user) db (count_view id row request.now viewed)
            (users_counted ∙ users_kept) known)
          (exists-select_one (secret_is id) (count_view id row request.now viewed).secrets
            now_counted)
          refl in
      ap (λ d. select_one (secret_is id) d.secrets) kept ∙ now_counted

  -- Where a file secret has more than one view left, a download that returns to a known user or to an
  -- anonymous one, whose address the database takes, counts one view, and the secret stays, not yet marked as viewed.
  serve_file-counts :
      (id version policy_version : ℕ) (object : Bytes) (current_user : Option CurrentUser)
      (request : Request) (db : Db) {row : SecretRow} {r : FileResponse} {db' : Db}
      → select_one (secret_is id) db.secrets ≡ some row
      → leb row.max_views (row.view_count + 1) ≡ false
      → is_known_user (id_of current_user) db ≡ true
      → db.is_inet request.client_ip ≡ true
      → serve_file fs id version policy_version object current_user request db ≡ ok (r, db')
      → select_one (secret_is id) db'.secrets
        ≡ some (record row { view_count = row.view_count + 1; viewed = false })
  serve_file-counts id version policy_version object current_user request db {row} {r} {db'} hr more
        known inet h =
      let (row', v, hc, ho, hw) =
        serve_file-parts id version policy_version object current_user request db h in
      let (found, few) = check_locked-row id version policy_version db hc in
      let same : row ≡ row' = cc in
      let written : write_view fs id row current_user request db ≡ db' =
        subst (λ x. write_view fs id x current_user request db ≡ db') (sym same) hw in
      ap (λ d. select_one (secret_is id) d.secrets) (sym written)
      ∙ write_view-counts id row current_user request db hr more known inet
