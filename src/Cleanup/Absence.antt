-- ===== src/Cleanup/Absence.antt =====
-- What is left of the deletion of an expired secret in the audit log.
use phantom_share.Prelude.{
  ℕ, ◌≡◌, refl, ◌∙◌, String, false, Option, none, some, List, [], ◌∷◌, arith,
}
use phantom_share.Sql.{select_one, exists}
use phantom_share.Sql.Laws.{exists-delete_self}
use phantom_share.Schema.{Db, SecretRow, secret_is, delete_secrets}
use phantom_share.Audit.{Entry, log, insert_entry, is_known_secret}
use phantom_share.Cleanup.{deleted_entry}
use phantom_share.Cleanup.Storage.{Depot, reconcile_all, user_list}
use phantom_share.Cleanup.Worker.{expire, report}

-- An entry about a secret that is gone is not written.
log_gone :
    (severity : String) (e : Entry) (now : ℕ) (db : Db)
    → is_known_secret e.secret_id db ≡ false
    → log severity e now db ≡ db
unfolding log insert_entry
log_gone severity e now db h = ground arith

reconcile_all-db : (users : List ℕ) (d : Depot) → (reconcile_all users d).db ≡ d.db
unfolding reconcile_all
reconcile_all-db [] d = refl
reconcile_all-db (u ∷ users) d = reconcile_all-db users _

delete_secrets-gone :
    (id now : ℕ) (db : Db)
    → exists (secret_is id) (delete_secrets (secret_is id) now db).secrets ≡ false
unfolding delete_secrets
delete_secrets-gone id now db = exists-delete_self (secret_is id) db.secrets

report-unlogged :
    (id now : ℕ) (row : Option SecretRow) (d : Depot)
    → exists (secret_is id) d.db.secrets ≡ false
    → (report id now row d).db ≡ d.db
report-unlogged id now none d gone = refl
report-unlogged id now (some s) d gone =
    reconcile_all-db (user_list s.owner_id) _
    ∙ log_gone "info" (deleted_entry id "ttl_expired" "redis_event") now d.db gone

-- The deletion of an expired secret leaves the tables as the DELETE alone leaves them: the entry
-- `secret_deleted` that follows it names a secret that is gone, and is never written.
pub expire-unlogged :
    (id now : ℕ) (d : Depot) → (expire id now d).db ≡ delete_secrets (secret_is id) now d.db
unfolding expire
expire-unlogged id now d =
    report-unlogged id now (select_one (secret_is id) d.db.secrets)
      (record d { db = delete_secrets (secret_is id) now d.db }) (delete_secrets-gone id now d.db)
