-- ===== src/Admin/Entries/Pages.antt =====
-- The pages of the audit log, one after the other.
use phantom_share.Prelude.{
  refl, Bool, ◌&&◌, ◌∷◌, not, ℕ, ◌*◌, ◌≤◌, ◌≡◌, ap, ◌∙◌, List, [], map, length, arith,
}
use phantom_share.Result.{database_error, Result, ok, err, raise_if-bind-eq-ok, ok-injective}
use phantom_share.Sql.{count, select}
use phantom_share.Sql.Page.{
  pages, page_of, pages-all, length-ordered, NewestFirst, order_by_desc-NewestFirst,
  count-order_by_desc,
}
use phantom_share.Schema.{Db, AuditRow}
use phantom_share.Admin.Entries.{
  audit_action, audit_severity, is_castable, Filters, AuditLogItem, AuditLogResponse, passes,
  passing, log_item, audit_logs,
}

abbrev pub items_of : Result AuditLogResponse → List AuditLogItem
items_of (ok answer) = answer.items
items_of (err e) = []

-- The entries that pass, how often each is there.
count-select :
    (p q : AuditRow → Bool) (rows : List AuditRow)
    → count q (select p rows) ≡ count (λ r. p r && q r) rows
unfolding select count
count-select p q [] = refl
count-select p q (x ∷ rows) = ground (arith, count-select p q rows)

length-passing :
    (ties : AuditRow → AuditRow → Bool) (f : Filters) (db : Db)
    → length (passing ties f db) ≡ count (passes f) db.audit_logs
unfolding passing
length-passing ties f db = length-ordered ties (λ r. r.created_at) (passes f) db.audit_logs

passing-NewestFirst :
    (ties : AuditRow → AuditRow → Bool) (f : Filters) (db : Db)
    → NewestFirst (λ r. r.created_at) (passing ties f db)
unfolding passing
passing-NewestFirst ties f db =
    order_by_desc-NewestFirst ties (λ r. r.created_at) (select (passes f) db.audit_logs)

count-passing :
    (ties : AuditRow → AuditRow → Bool) (f : Filters) (db : Db) (q : AuditRow → Bool)
    → count q (passing ties f db) ≡ count (λ r. passes f r && q r) db.audit_logs
unfolding passing
count-passing ties f db q =
    count-order_by_desc ties (λ r. r.created_at) q (select (passes f) db.audit_logs)
    ∙ count-select (passes f) q db.audit_logs

-- Where the database puts the entries of one instant alike in each query, and some page is answered,
-- the pages from the first on, as many as `total` asks for, are one list: as many entries as `total`
-- says, by falling time, with each entry that passes the filters as often as the table has it, and
-- no other.
pub audit_logs-pages :
    (ties : AuditRow → AuditRow → Bool) (n page size : ℕ) (f : Filters) (db : Db)
    {answer : AuditLogResponse}
    → audit_logs ties page size f db ≡ ok answer
    → answer.total ≤ n * size
    → (rows : List AuditRow) × (pages (λ p. items_of (audit_logs ties p size f db)) n
        ≡ map log_item rows)
      × (length rows ≡ answer.total)
      × NewestFirst (λ r. r.created_at) rows
      × ((q : AuditRow → Bool) → count q rows ≡ count (λ r. passes f r && q r) db.audit_logs)
unfolding audit_logs
audit_logs-pages ties n page size f db {answer} h enough =
    let (action_ok, h1) =
      raise_if-bind-eq-ok (not (is_castable audit_action f.action)) database_error _ {a = answer}
        h in
    let (severity_ok, h2) =
      raise_if-bind-eq-ok (not (is_castable audit_severity f.severity)) database_error _
        {a = answer} h1 in
    let total : length (passing ties f db) ≡ answer.total =
      length-passing ties f db ∙ ap (λ a. a.total) (ok-injective h2) in
    let each : (p : ℕ)
        → items_of (audit_logs ties p size f db) ≡ page_of log_item size (passing ties f db) p =
      λ p. rw (action_ok, severity_ok) in
    (
      passing ties f db,
      (λ i. pages (λ p. each p i) n)
          ∙ pages-all log_item size (passing ties f db) n (omega (arith, total)),
      total,
      passing-NewestFirst ties f db,
      count-passing ties f db,
    )
