-- ===== src/Admin.antt =====
-- app/routers/admin.py: what an administrator does to the users, and the lists that it reads.
-- app/routers/stats.py: the public counts. The sweep that DELETE /api/admin/cleanup starts is
-- `fallback_sweep`.
pub mod Calls
pub mod Entries
pub mod Grace
pub mod Lockout
pub mod Race
use phantom_share.Prelude.{
  ℕ, ◌+◌, ◌-◌, ◌*◌, String, Bool, true, not, ◌&&◌, ◌||◌, Option, none, some, List, [], ◌∷◌, map,
  ltb, ◌==◌, if◌then◌else◌, str_eq,
}
use phantom_share.Result.{http, database_error, Result, ok, err, ◌>>=◌, ◌>>◌, or_raise, raise_if}
use phantom_share.Sql.{select_one, select, update, count}
use phantom_share.Sql.Page.{order_by_desc, offset, limit}
use phantom_share.Schema.{Db, UserRow, SecretRow, AuditRow, Json, num, str, bool, user_is}
use phantom_share.Permissions.{Role, readonly, user, admin, CurrentUser}
use phantom_share.Versions.Inserts.{Request}
use phantom_share.Audit.{Entry, log_warning, log_critical}
use phantom_share.Secrets.Guards.{is_given}
use phantom_share.Cleanup.Worker.{Tools, Worker, Swept, fallback_sweep}

-- The value of a `UserRole`, whose members are those of `Role`.
abbrev pub role_value : Role → String
role_value admin = "admin"
role_value user = "user"
role_value readonly = "readonly"

abbrev pub two_days : ℕ
two_days = 172_800_000_000

-- The triggers of an UPDATE on the users: `trigger_set_updated_at` on each, and
-- `schedule_user_deletion` where the statement sets `is_active`.
abbrev pub set_updated_at : ℕ → UserRow → UserRow
set_updated_at now new = record new { updated_at = now }

unfoldable pub schedule_user_deletion : ℕ → UserRow → UserRow → UserRow
schedule_user_deletion now old new =
    if not new.is_active && old.is_active
    then record new { delete_after = some (now + two_days) }
    else if new.is_active
    then record new { delete_after = none }
    else new

-- The SET of the two UPDATEs, with the triggers.
abbrev pub with_role : Role → ℕ → UserRow → UserRow
with_role role now u = set_updated_at now (record u { role = role_value role })

unfoldable pub switched : ℕ → UserRow → UserRow
unfolding schedule_user_deletion
switched now u =
    set_updated_at now (schedule_user_deletion now u (record u { is_active = not u.is_active }))

pub record AdminUserResponse : Type 0 where
  pub id : ℕ
  pub email : String
  pub username : String
  pub role : String
  pub is_active : Bool
  pub created_at : ℕ
  pub updated_at : ℕ
  pub delete_after : Option ℕ

abbrev pub user_response : UserRow → AdminUserResponse
user_response u = record {
  id = u.id;
  email = u.email;
  username = u.username;
  role = u.role;
  is_active = u.is_active;
  created_at = u.created_at;
  updated_at = u.updated_at;
  delete_after = u.delete_after;
}

abbrev pub role_entry : ℕ → Role → CurrentUser → String → Entry
role_entry user_id role who client_ip = record {
  action = "admin_role_change";
  actor_id = some who.id;
  actor_ip = some client_ip;
  secret_id = none;
  metadata = ("target_user_id", num user_id) ∷ ("new_role", str (role_value role)) ∷ [];
}

-- `change_role`
unfoldable pub change_role : ℕ → Role → CurrentUser → Request → Db → Result (AdminUserResponse × Db)
unfolding log_critical
change_role user_id role who request db = do
  raise_if (user_id == who.id) (http 400 "Cannot change your own role")
  let users = update (user_is user_id) (with_role role request.now) db.users
  row ← or_raise (select_one (user_is user_id) users) (http 404 "User not found")
  ok (
    user_response row,
    log_critical (role_entry user_id role who request.client_ip) request.now
        (record db { users = users }),
  )

pub record UserStatusResponse : Type 0 where
  pub user_id : ℕ
  pub is_active : Bool
  pub delete_after : Option ℕ

abbrev pub toggle_entry : ℕ → Bool → CurrentUser → String → Entry
toggle_entry user_id is_active who client_ip = record {
  action = "admin_user_toggle";
  actor_id = some who.id;
  actor_ip = some client_ip;
  secret_id = none;
  metadata = ("target_user_id", num user_id) ∷ ("is_active", bool is_active) ∷ [];
}

abbrev pub status_response : UserRow → UserStatusResponse
status_response u = record {
  user_id = u.id;
  is_active = u.is_active;
  delete_after = u.delete_after;
}

-- `switch_user_activation`
unfoldable pub switch_user_activation :
    ℕ → CurrentUser → Request → Db → Result (UserStatusResponse × Db)
unfolding log_warning switched
switch_user_activation user_id who request db = do
  raise_if (user_id == who.id) (http 400 "Cannot change your own activation status")
  let users = update (user_is user_id) (switched request.now) db.users
  row ← or_raise (select_one (user_is user_id) users) (http 404 "User not found")
  ok (
    status_response row,
    log_warning (toggle_entry user_id row.is_active who request.client_ip) request.now
        (record db { users = users }),
  )

abbrev pub cleanup_entry : CurrentUser → String → Entry
cleanup_entry who client_ip = record {
  action = "admin_cleanup";
  actor_id = some who.id;
  actor_ip = some client_ip;
  secret_id = none;
  metadata = [];
}

abbrev noted : CurrentUser → Request → Result Swept × Worker → Result Swept × Worker
noted who request (err e, w) = (err e, w)
noted who request (ok swept, w) = (
  ok swept,
  record w {
    depot = record w.depot {
      db = log_warning (cleanup_entry who request.client_ip) request.now w.depot.db;
    };
  },
)

-- `cleanup_expired`; `token` is the one that the lock draws.
unfoldable pub cleanup_expired :
    Tools → String → CurrentUser → Request → Worker → Result Swept × Worker
unfolding fallback_sweep log_warning
cleanup_expired tools token who request w =
    noted who request (fallback_sweep tools token request.now w)

pub record AdminUserListResponse : Type 0 where
  pub items : List AdminUserResponse
  pub total : ℕ
  pub page : ℕ
  pub page_size : ℕ

-- `list_users`; the route admits pages and sizes from 1 on. `ties` is how the database puts users of
-- one instant.
unfoldable pub list_users : (UserRow → UserRow → Bool) → ℕ → ℕ → Db → AdminUserListResponse
unfolding order_by_desc offset limit
list_users ties page page_size db = record {
  items = map user_response (
      limit page_size
        (offset ((page - 1) * page_size) (order_by_desc ties (λ u. u.created_at) db.users)));
  total = count (λ _. true) db.users;
  page = page;
  page_size = page_size;
}

pub record StatsResponse : Type 0 where
  pub total_secrets_created : ℕ
  pub total_secrets_viewed : ℕ
  pub active_secrets : ℕ

-- `get_stats`
unfoldable pub get_stats : ℕ → Db → StatsResponse
get_stats now db = record {
  total_secrets_created = count (λ _. true) db.secrets;
  total_secrets_viewed = count (λ s. s.viewed) db.secrets;
  active_secrets = count (λ s. ltb now s.expires_at && ltb s.view_count s.max_views) db.secrets;
}
