-- ===== src/Cleanup/Worker.antt =====
-- `_delete_secret` and `_fallback_sweep` of app/services/cleanup_service.py.
use phantom_share.Prelude.{
  ℕ, String, Bool, Option, none, some, List, [], ◌∷◌, ◌++◌, length, is_some, if◌then◌else◌,
}
use phantom_share.Text.{◌++◌ as ◌^◌}
use phantom_share.Result.{runtime_error, Result, ok, err}
use phantom_share.Sql.{select_one, select}
use phantom_share.Schema.{Db, SecretRow, UserRow, secret_is, delete_secrets}
use phantom_share.Audit.{log}
use phantom_share.Cleanup.{
  Lock, acquire_lock, release_lock, sweep, without_users, is_over, is_removable, is_dead,
  deleted_entry, removed_entry,
}
use phantom_share.Cleanup.Storage.{Depot, reconcile_all, process_storage_cleanup, user_list}

-- The depot, with the locks of Redis. They count only where there is a connection.
pub record Worker : Type 0 where
  pub depot : Depot
  pub locks : List Lock

-- What the workers rest on: the texts of ids, and the keys whose objects the storage deletes.
pub record Tools : Type 0 where
  pub uuid_str : ℕ → String
  pub works : String → Bool

-- One audit entry for each deleted row, each on a connection of its own.
unfoldable pub log_secrets : List SecretRow → ℕ → Db → Db
log_secrets [] now db = db
log_secrets (s ∷ rows) now db =
    log_secrets rows now
      (log "info" (deleted_entry s.id "ttl_expired/max_views_achieved" "fallback_sweep") now db)

unfoldable pub log_users : List UserRow → ℕ → Db → Db
log_users [] now db = db
log_users (u ∷ rows) now db = log_users rows now (log "info" (removed_entry u.id) now db)

abbrev pub owners_of : List SecretRow → List ℕ
owners_of [] = []
owners_of (s ∷ rows) = user_list s.owner_id ++ owners_of rows

abbrev pub lock_key : Tools → ℕ → String
lock_key tools id = "phantom:lock:" ^ tools.uuid_str id

-- What follows the DELETE, where there was a row.
abbrev pub report : ℕ → ℕ → Option SecretRow → Depot → Depot
report id now none d = d
report id now (some s) d =
    reconcile_all (user_list s.owner_id)
      (record d { db = log "info" (deleted_entry id "ttl_expired" "redis_event") now d.db })

-- What `_delete_secret` does with the lock.
unfoldable pub expire : ℕ → ℕ → Depot → Depot
expire id now d =
    report id now (select_one (secret_is id) d.db.secrets)
      (record d { db = delete_secrets (secret_is id) now d.db })

-- `_delete_secret`: `token` is drawn for the lock.
unfoldable pub delete_secret : Tools → ℕ → String → ℕ → Worker → Result (Unit {0}) × Worker
unfolding expire
delete_secret tools id token now w =
    if is_some w.depot.redis
    then (let (mine, locks) = acquire_lock (lock_key tools id) 30 token now w.locks in
        if is_some mine
        then (
          ok tt,
          record {
            depot = expire id now w.depot;
            locks = release_lock (lock_key tools id) token now locks;
          },
        )
        else (ok tt, record w { locks = locks }))
    else (err runtime_error, w)

pub record Swept : Type 0 where
  pub secrets_deleted : ℕ
  pub sessions_deleted : ℕ
  pub users_deleted : ℕ
  pub ran_at : ℕ

-- What `_fallback_sweep` does with the lock: the transaction, the audit entries of the secrets, the
-- counters of their owners, the storage, and the audit entries of the users. The sessions are counted
-- after those of the deleted users have gone with them.
unfoldable pub sweep_all : Tools → ℕ → Depot → Swept × Depot
unfolding sweep log_secrets log_users reconcile_all process_storage_cleanup
sweep_all tools now d =
    let secrets = select (is_over now) d.db.secrets in
    let users = select (is_removable now) d.db.users in
    let sessions = select (is_dead now) (without_users now d.db).sessions in
    let d1 = record d { db = log_secrets secrets now (sweep now d.db) } in
    let (stored, d2) =
      process_storage_cleanup tools.works now (reconcile_all (owners_of secrets) d1) in
    (
      record {
        secrets_deleted = length secrets;
        sessions_deleted = length sessions;
        users_deleted = length users;
        ran_at = now;
      },
      record d2 { db = log_users users now d2.db },
    )

-- `_fallback_sweep`
unfoldable pub fallback_sweep : Tools → String → ℕ → Worker → Result Swept × Worker
unfolding sweep_all
fallback_sweep tools token now w =
    if is_some w.depot.redis
    then (let (mine, locks) = acquire_lock "phantom:lock:sweep" 120 token now w.locks in
        if is_some mine
        then (let (swept, depot) = sweep_all tools now w.depot in
            (
              ok swept,
              record { depot = depot; locks = release_lock "phantom:lock:sweep" token now locks },
            ))
        else (
          ok (record {
            secrets_deleted = 0;
            sessions_deleted = 0;
            users_deleted = 0;
            ran_at = now;
          }),
          record w { locks = locks },
        ))
    else (err runtime_error, w)
