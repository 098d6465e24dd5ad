-- ===== src/Audit/Laws.antt =====
-- What an audit entry leaves alone.
use phantom_share.Prelude.{ℕ, ◌≡◌, String, true, arith}
use phantom_share.Result.{ok}
use phantom_share.Schema.{Db}
use phantom_share.Sql.{insert}
use phantom_share.Audit.{
  Entry, entry_row, insert_entry, log, log_last, is_address, is_known_user, is_known_secret,
}

-- An entry that goes in changes the audit log only.
pub insert_entry_lem :
    (severity : String) (e : Entry) (now : ℕ) (db : Db) {db' : Db}
    → insert_entry severity e now db ≡ ok db'
    → db' ≡ record db { audit_logs = db'.audit_logs }
unfolding insert_entry
insert_entry_lem severity e now db h = ground arith

-- An entry goes in where its address is one, and its user and its secret are in the tables.
pub insert_entry_total :
    (severity : String) (e : Entry) (now : ℕ) (db : Db)
    → is_address e.actor_ip db ≡ true
    → is_known_user e.actor_id db ≡ true
    → is_known_secret e.secret_id db ≡ true
    → (db' : Db) × (insert_entry severity e now db ≡ ok db')
unfolding insert_entry
insert_entry_total severity e now db hi hu hs =
    (record db { audit_logs = insert (entry_row severity e now) db.audit_logs }, rw (hi, hu, hs))

-- The last entry of a transaction goes in where its address is one, and its user and its secret are in
-- the tables, and then the transaction keeps what it wrote.
pub log_last_keeps :
    (severity : String) (e : Entry) (now : ℕ) (start db : Db) {db' : Db}
    → is_address e.actor_ip db ≡ true
    → is_known_user e.actor_id db ≡ true
    → is_known_secret e.secret_id db ≡ true
    → log_last severity e now start db ≡ db'
    → db' ≡ record db { audit_logs = db'.audit_logs }
unfolding log_last insert_entry
log_last_keeps severity e now start db {db'} hi hu hs h = ground arith

-- An entry on a connection of its own changes the audit log only.
pub log_keeps :
    (severity : String) (e : Entry) (now : ℕ) (db : Db)
    → log severity e now db ≡ record db { audit_logs = (log severity e now db).audit_logs }
unfolding log insert_entry
log_keeps severity e now db = ground arith
