-- ===== src/Tests/Admins.antt =====
-- Two administrators and a user: switches, roles, the audit log and the limits of a quota.
use phantom_share.Prelude.{
  ◌&&◌, String, Bool, ℕ, ◌+◌, ◌<◌, ◌≡◌, ◌≤◌, refl, true, false, none, some, List, [], ◌∷◌, map,
  length, arith,
}
use phantom_share.Result.{Result, ok}
use phantom_share.Sql.{select_one, count, update}
use phantom_share.Sql.Page.{pages, NewestFirst}
use phantom_share.Schema.{Db, UserRow, AuditRow, user_is, empty_db}
use phantom_share.Permissions.{CurrentUser, readonly, require_admin, require_role}
use phantom_share.Audit.{Entry, log_critical, log_warning}
use phantom_share.Accounts.{create_access_token, bearer}
use phantom_share.Cleanup.{sweep}
use phantom_share.Quota.{UsageReport, limits_for_user}
use phantom_share.Quota.Scripts.{Limits}
use phantom_share.Quota.Overrides.{Books, QuotaUpdate, update_quota}
use phantom_share.Quota.Overrides.Effect.{update_quota-limits}
use phantom_share.Admin.{two_days, switched, switch_user_activation, UserStatusResponse}
use phantom_share.Admin.Entries.{Filters, passes, log_item, AuditLogResponse, audit_logs}
use phantom_share.Admin.Entries.Pages.{items_of, audit_logs-pages}
use phantom_share.Admin.Entries.Severity.{with_severity, audit_logs-log}
use phantom_share.Admin.Grace.{switch_user_activation-sweep}
use phantom_share.Admin.Calls.{Event, called, swept, set_role, switch, run}
use phantom_share.Admin.Lockout.{HasAdmin, run-HasAdmin}
use phantom_share.Admin.Race.{switch_user_activation_twice}
use phantom_share.Tests.Jwt.{auth, first, user_row}
use phantom_share.Tests.Tables.{after, value, request}

abbrev first_admin : UserRow
first_admin = record user_row { role = "admin" }

abbrev second_admin : UserRow
second_admin = record user_row { id = 2; role = "admin" }

abbrev staff : Db
staff = record empty_db {
  users = first_admin ∷ second_admin ∷ record user_row { id = 3 } ∷ [];
  sessions =
      record {
        id = 7;
        user_id = 1;
        refresh_token_hash = "";
        user_agent = "";
        ip_address = "";
        expires_at = 9_000_000;
        revoked = false;
      }
      ∷ [];
}

abbrev token : String
token = create_access_token auth 1 "user" first 0

-- The first administrator takes the role of the second, tries to switch itself off, and a sweep runs.
abbrev events : List Event
events =
    called (record { credentials = some token; command = set_role 2 readonly; request = request })
    ∷ called (record { credentials = some token; command = switch 1; request = request })
    ∷ swept 5
    ∷ []

-- The second administrator has lost the role, and the first is active.
run_events :
    map {B = String × Bool} (λ u. (u.role, u.is_active)) (run auth events staff).users
    ≡ ("admin", true) ∷ ("readonly", true) ∷ ("user", true) ∷ []
unfolding run phantom_share.Sql.delete phantom_share.Schema.delete_secrets
    phantom_share.Tests.Jwt.claims_of phantom_share.Tests.Libraries.read select_one
    phantom_share.Sql.exists create_access_token phantom_share.Tests.Libraries.to_text
    phantom_share.Tests.Jwt.payload phantom_share.Tests.Libraries.codes
    phantom_share.Tests.Libraries.of_codes phantom_share.Audit.log phantom_share.Sql.insert
    phantom_share.Accounts.decode_token phantom_share.Accounts.find_bearer
    phantom_share.Accounts.get_current_user phantom_share.Admin.Calls.caller
    phantom_share.Admin.Calls.perform phantom_share.Admin.change_role
    phantom_share.Admin.schedule_user_deletion switch_user_activation switched
    phantom_share.Audit.insert_entry log_critical log_warning phantom_share.Cleanup.delete_tracking
    phantom_share.Cleanup.delete_users sweep phantom_share.Cleanup.without_users
    phantom_share.Permissions.from_str require_admin require_role
    phantom_share.Schema.enqueue_objects update phantom_share.Tests.Libraries.unary
    phantom_share.Text.same_codes phantom_share.Text.upper
run_events = refl

run-HasAdmin_example : HasAdmin (run auth events staff)
unfolding select_one require_admin require_role phantom_share.Permissions.from_str
    phantom_share.Text.upper phantom_share.Text.same_codes
run-HasAdmin_example = run-HasAdmin auth events staff (first_admin, (refl, refl))

abbrev no_status : UserStatusResponse
no_status = record { user_id = 0; is_active = true; delete_after = none }

abbrev off : Result (UserStatusResponse × Db)
off = switch_user_activation 3 (bearer first_admin) request staff

switch_user_activation-sweep_example :
    ((value no_status off).is_active ≡ false)
    × (7 < request.now + two_days
        → select_one (user_is 3) (sweep 7 (after staff off)).users
          ≡ some (switched request.now (record user_row { id = 3 })))
    × (request.now + two_days ≤ 7 → select_one (user_is 3) (sweep 7 (after staff off)).users ≡ none)
unfolding select_one count switch_user_activation update switched
    phantom_share.Admin.schedule_user_deletion log_warning phantom_share.Audit.log
    phantom_share.Audit.insert_entry phantom_share.Sql.exists phantom_share.Sql.insert
switch_user_activation-sweep_example =
    switch_user_activation-sweep 3 7 (bearer first_admin) request staff
      {u = record user_row { id = 3 }} {answer = value no_status off} {db' = after staff off} refl
      (omega arith) refl refl

abbrev entry_at : ℕ → AuditRow
entry_at n = record {
  action = "user_login";
  actor_id = some 1;
  actor_ip = none;
  severity = "info";
  secret_id = none;
  metadata = [];
  created_at = n;
}

abbrev logged : Db
logged = record empty_db { audit_logs = entry_at 5 ∷ entry_at 9 ∷ entry_at 7 ∷ [] }

abbrev filters : Filters
filters = record {
  action = some "user_login";
  severity = none;
  actor_id = some 1;
  secret_id = none;
}

abbrev first_page : AuditLogResponse
first_page = record {
  items = log_item (entry_at 9) ∷ log_item (entry_at 7) ∷ [];
  total = 3;
  page = 1;
  page_size = 2;
}

-- The entries of one instant in the order of the table.
abbrev by_position : AuditRow → AuditRow → Bool
by_position _ _ = true

audit_logs-pages_example :
    (rows : List AuditRow) × (pages (λ p. items_of (audit_logs by_position p 2 filters logged)) 2
      ≡ map log_item rows)
    × (length rows ≡ 3)
    × NewestFirst (λ r. r.created_at) rows
    × ((q : AuditRow → Bool)
        → count q rows ≡ count (λ r. passes filters r && q r) logged.audit_logs)
unfolding audit_logs count phantom_share.Sql.exists phantom_share.Sql.select
    phantom_share.Sql.Page.insert_desc
audit_logs-pages_example =
    audit_logs-pages by_position 2 1 2 filters logged {answer = first_page} refl (omega arith)

abbrev alarm : Entry
alarm = record {
  action = "invalid_token";
  actor_id = none;
  actor_ip = none;
  secret_id = none;
  metadata = [];
}

audit_logs-log_example :
    (audit_logs by_position 1 2 (with_severity "warning" filters) (log_warning alarm 9 logged)
      ≡ audit_logs by_position 1 2 (with_severity "warning" filters) logged)
    × (audit_logs by_position 1 2 (with_severity "critical" filters) (log_critical alarm 9 logged)
        ≡ audit_logs by_position 1 2 (with_severity "critical" filters) logged)
audit_logs-log_example = audit_logs-log by_position 1 2 filters alarm 9 logged

switch_user_activation_twice_example :
    (r r' : UserStatusResponse) × (between after_both : Db) × (switch_user_activation 2
        (bearer first_admin)
        request
        staff
      ≡ ok (r, between))
    × (switch_user_activation 1 (bearer second_admin) request between ≡ ok (r', after_both))
    × (u' v' : UserRow) × (select_one (user_is 1) after_both.users ≡ some u')
    × (u'.is_active ≡ false)
    × (select_one (user_is 2) after_both.users ≡ some v')
    × (v'.is_active ≡ false)
unfolding select_one require_admin require_role phantom_share.Permissions.from_str
    phantom_share.Text.upper phantom_share.Text.same_codes
switch_user_activation_twice_example =
    switch_user_activation_twice request request staff {u = first_admin} {v = second_admin}
      (refl, refl) (refl, refl) refl

abbrev defaults : Limits
defaults = record { secret_limit = 10; byte_limit = 100 }

abbrev change : QuotaUpdate
change = record { max_active_secrets = some 4; max_file_bytes = none }

abbrev books : Books
books = record { db = staff; redis = some (record { usages = []; held = []; due = [] }) }

abbrev reported : UsageReport
reported = record {
  active_secrets = 0;
  file_bytes = 0;
  max_active_secrets = 4;
  max_file_bytes = 100;
}

update_quota-limits_example :
    (limits_for_user defaults 3
        (update_quota defaults 3 change (bearer first_admin) request books).1.db
      ≡ record { secret_limit = 4; byte_limit = 100 })
    × (reported.max_active_secrets ≡ 4)
    × (reported.max_file_bytes ≡ 100)
    × (limits_for_user defaults 1
          (update_quota defaults 3 change (bearer first_admin) request books).1.db
        ≡ limits_for_user defaults 1 staff)
unfolding update_quota phantom_share.Sql.exists count phantom_share.Sql.sum select_one
    phantom_share.Accounts.Sessions.login phantom_share.Text.ci_eq phantom_share.Sql.insert
update_quota-limits_example =
    update_quota-limits defaults 3 1 change (bearer first_admin) request books {report = reported}
      {after = (update_quota defaults 3 change (bearer first_admin) request books).1} refl refl
