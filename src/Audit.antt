-- ===== src/Audit.antt =====
-- app/services/audit_service.py: entries of the audit log.
pub mod Laws
use phantom_share.Prelude.{
  ℕ, String, Bool, true, ◌&&◌, Option, none, some, List, [], ◌∷◌, ◌++◌, if◌then◌else◌,
}
use phantom_share.Result.{database_error, Result, ok, err}
use phantom_share.Sql.{insert, exists}
use phantom_share.Schema.{Db, AuditRow, Json, num, str, secret_is, user_is}

-- The keyword arguments of `log`, the severity apart.
pub record Entry : Type 0 where
  pub action : String
  pub actor_id : Option ℕ
  pub actor_ip : Option String
  pub secret_id : Option ℕ
  pub metadata : List (String × Json)

abbrev pub is_known_user : Option ℕ → Db → Bool
is_known_user none db = true
is_known_user (some id) db = exists (user_is id) db.users

abbrev pub is_known_secret : Option ℕ → Db → Bool
is_known_secret none db = true
is_known_secret (some id) db = exists (secret_is id) db.secrets

-- `%s::inet`, which takes NULL.
abbrev pub is_address : Option String → Db → Bool
is_address none db = true
is_address (some ip) db = db.is_inet ip

-- The row of the INSERT of `log`. It names no `severity`, so the column takes its default, and the
-- severity goes into the metadata.
abbrev pub entry_row : String → Entry → ℕ → AuditRow
entry_row severity e now = record {
  action = e.action;
  actor_id = e.actor_id;
  actor_ip = e.actor_ip;
  severity = "info";
  secret_id = e.secret_id;
  metadata = e.metadata ++ ("severity", str severity) ∷ ("ts", num now) ∷ [];
  created_at = now;
}

-- The INSERT. `err` is a failure of the cast of the address, or a violation of one of the two foreign
-- keys.
unfoldable pub insert_entry : String → Entry → ℕ → Db → Result Db
insert_entry severity e now db =
    if is_address e.actor_ip db && (is_known_user e.actor_id db && is_known_secret e.secret_id db)
    then ok (record db { audit_logs = insert (entry_row severity e now) db.audit_logs })
    else err database_error

abbrev pub or_same : Result Db → Db → Db
or_same (ok db') db = db'
or_same (err _) db = db

-- `log` as the last statement of a transaction on the caller's connection. A failure is caught, but
-- it has aborted the transaction, whose COMMIT then rolls back to `start` without an error.
unfoldable pub log_last : String → Entry → ℕ → Db → Db → Db
unfolding insert_entry
log_last severity e now start db = or_same (insert_entry severity e now db) start

-- `log` on a connection of its own: a failure is caught, and nothing is written.
unfoldable pub log : String → Entry → ℕ → Db → Db
unfolding insert_entry
log severity e now db = or_same (insert_entry severity e now db) db

unfoldable pub log_warning : Entry → ℕ → Db → Db
unfolding log
log_warning = log "warning"

unfoldable pub log_critical : Entry → ℕ → Db → Db
unfolding log
log_critical = log "critical"
