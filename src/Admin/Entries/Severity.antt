-- ===== src/Admin/Entries/Severity.antt =====
-- The severity of an entry in the list of an administrator.
use phantom_share.Prelude.{
  Bool, ℕ, ◌≡◌, refl, inl, inr, String, false, some, Bool-cases, arith, str_eq, ◌&&◌,
}
use phantom_share.Sql.{select, count}
use phantom_share.Sql.Laws.{select-insert_other}
use phantom_share.Sql.Counting.{count-insert_other}
use phantom_share.Schema.{AuditRow, Db}
use phantom_share.Audit.{
  is_address, is_known_user, is_known_secret, Entry, entry_row, insert_entry, log, log_warning,
  log_critical,
}
use phantom_share.Admin.Entries.{Filters, passes, passing, audit_logs}

abbrev pub with_severity : String → Filters → Filters
with_severity severity f = record f { severity = some severity }

never_passes :
    (severity logged : String) (f : Filters) (e : Entry) (now : ℕ)
    → str_eq severity "" ≡ false
    → str_eq "info" severity ≡ false
    → passes (with_severity severity f) (entry_row logged e now) ≡ false
never_passes severity logged f e now given other = ground (arith, given, other)

unselected :
    (severity logged : String) (f : Filters) (e : Entry) (now : ℕ) (db : Db)
    → str_eq severity "" ≡ false
    → str_eq "info" severity ≡ false
    → (select (passes (with_severity severity f)) (log logged e now db).audit_logs
        ≡ select (passes (with_severity severity f)) db.audit_logs)
      × (count (passes (with_severity severity f)) (log logged e now db).audit_logs
          ≡ count (passes (with_severity severity f)) db.audit_logs)
unfolding log insert_entry
unselected severity logged f e now db given other =
    let fails = never_passes severity logged f e now given other in
    elim (Bool-cases (
      is_address e.actor_ip db
      && (is_known_user e.actor_id db && is_known_secret e.secret_id db))) [
        | inl known ↦ (
          rw known (
              select-insert_other (passes (with_severity severity f)) (entry_row logged e now)
                db.audit_logs fails),
          rw known (
              count-insert_other (passes (with_severity severity f)) (entry_row logged e now)
                db.audit_logs fails),
        )
        | inr unknown ↦ (rw unknown, rw unknown)
      ]

unlisted :
    (ties : AuditRow → AuditRow → Bool) (page size : ℕ) (severity logged : String) (f : Filters)
    (e : Entry) (now : ℕ) (db : Db)
    → str_eq severity "" ≡ false
    → str_eq "info" severity ≡ false
    → audit_logs ties page size (with_severity severity f) (log logged e now db)
      ≡ audit_logs ties page size (with_severity severity f) db
unfolding audit_logs passing
unlisted ties page size severity logged f e now db given other =
    let (same, number) = unselected severity logged f e now db given other in rw (same, number)

-- Whatever is logged as a warning is not in the list of the warnings, and whatever is logged as
-- critical is not in the list of what is critical: those lists stay as they were, with any further
-- filter.
pub audit_logs-log :
    (ties : AuditRow → AuditRow → Bool) (page size : ℕ) (f : Filters) (e : Entry) (now : ℕ)
    (db : Db)
    → (audit_logs ties page size (with_severity "warning" f) (log_warning e now db)
        ≡ audit_logs ties page size (with_severity "warning" f) db)
      × (audit_logs ties page size (with_severity "critical" f) (log_critical e now db)
          ≡ audit_logs ties page size (with_severity "critical" f) db)
unfolding log_warning log_critical
audit_logs-log ties page size f e now db = (
  unlisted ties page size "warning" "warning" f e now db refl refl,
  unlisted ties page size "critical" "critical" f e now db refl refl,
)
