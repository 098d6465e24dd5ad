-- ===== src/Admin/Entries.antt =====
-- The pages of the audit log that an administrator reads, `audit_logs` of app/routers/admin.py. The
-- rows of a table stand in the order of their serial ids, so a row's id is its position and no field.
pub mod Pages
pub mod Severity
use phantom_share.Prelude.{
  ℕ, ◌-◌, ◌*◌, String, Bool, true, false, not, ◌&&◌, ◌||◌, Option, none, some, List, [], ◌∷◌, map,
  ◌==◌, if◌then◌else◌, str_eq,
}
use phantom_share.Result.{database_error, Result, ok, err, ◌>>=◌, ◌>>◌, raise_if}
use phantom_share.Sql.{select, count, exists}
use phantom_share.Sql.Page.{order_by_desc, offset, limit}
use phantom_share.Schema.{Db, AuditRow, Json}
use phantom_share.Secrets.Guards.{is_given}

-- The members of the types `audit_action` and `audit_severity` of the database.
abbrev pub audit_action : List String
audit_action =
    "secret_created" ∷ "secret_viewed" ∷ "secret_deleted" ∷ "user_registered" ∷ "user_login"
    ∷ "user_logout" ∷ "user_removed" ∷ "key_rotated" ∷ "secret_expired" ∷ "token_refresh"
    ∷ "admin_role_change" ∷ "admin_cleanup" ∷ "admin_user_toggle" ∷ "rate_limit_hit"
    ∷ "invalid_token" ∷ "secret_updated" ∷ "secret_version_restored" ∷ "file_uploaded"
    ∷ "malware_detected" ∷ "admin_quota_update" ∷ []

abbrev pub audit_severity : List String
audit_severity = "info" ∷ "warning" ∷ "critical" ∷ []

-- The query parameters `action`, `severity`, `actor_id` and `secret_id`.
pub record Filters : Type 0 where
  pub action : Option String
  pub severity : Option String
  pub actor_id : Option ℕ
  pub secret_id : Option ℕ

-- The casts of the parameters; a text that is no member of the type is an error of the database.
abbrev pub is_castable : List String → Option String → Bool
is_castable members none = true
is_castable members (some t) =
    if str_eq t "" then true else exists (λ member. str_eq member t) members

-- `action = %s`, where the parameter is neither None nor empty.
abbrev pub text_agrees : Option String → String → Bool
text_agrees none value = true
text_agrees (some t) value = if str_eq t "" then true else str_eq value t

-- `actor_id = %s`; a NULL of the row is not equal to anything.
abbrev pub id_agrees : Option ℕ → Option ℕ → Bool
id_agrees none value = true
id_agrees (some n) none = false
id_agrees (some n) (some m) = m == n

-- The WHERE of `audit_logs`.
abbrev pub passes : Filters → AuditRow → Bool
passes f r =
    text_agrees f.action r.action
    && (text_agrees f.severity r.severity
        && (id_agrees f.actor_id r.actor_id && id_agrees f.secret_id r.secret_id))

pub record AuditLogItem : Type 0 where
  pub action : String
  pub severity : String
  pub actor_id : Option ℕ
  pub actor_ip : Option String
  pub secret_id : Option ℕ
  pub metadata : List (String × Json)
  pub created_at : ℕ

abbrev pub log_item : AuditRow → AuditLogItem
log_item r = record {
  action = r.action;
  severity = r.severity;
  actor_id = r.actor_id;
  actor_ip = r.actor_ip;
  secret_id = r.secret_id;
  metadata = r.metadata;
  created_at = r.created_at;
}

pub record AuditLogResponse : Type 0 where
  pub items : List AuditLogItem
  pub total : ℕ
  pub page : ℕ
  pub page_size : ℕ

-- The entries that pass, the newest first. `ties` is how the database puts entries of one instant.
unfoldable pub passing : (AuditRow → AuditRow → Bool) → Filters → Db → List AuditRow
unfolding order_by_desc
passing ties f db = order_by_desc ties (λ r. r.created_at) (select (passes f) db.audit_logs)

-- `audit_logs`; the route admits pages and sizes from 1 on. The ORDER BY has no second column, so
-- each query has a `ties` of its own.
unfoldable pub audit_logs :
    (AuditRow → AuditRow → Bool) → ℕ → ℕ → Filters → Db → Result AuditLogResponse
unfolding passing offset limit
audit_logs ties page page_size f db = do
  raise_if (not (is_castable audit_action f.action)) database_error
  raise_if (not (is_castable audit_severity f.severity)) database_error
  ok (record {
    items = map log_item (limit page_size (offset ((page - 1) * page_size) (passing ties f db)));
    total = count (passes f) db.audit_logs;
    page = page;
    page_size = page_size;
  })
