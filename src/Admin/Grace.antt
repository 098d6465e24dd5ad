-- ===== src/Admin/Grace.antt =====
-- How long an account that is switched off stays: `switch_user_activation` of app/routers/admin.py
-- and the sweep of app/services/cleanup_service.py.
use phantom_share.Prelude.{
  some-injective, ℕ, ◌+◌, ◌<◌, ◌≤◌, ◌≡◌, sym, ap, ◌∙◌, true, false, none, some, ◌==◌, arith, leb,
}
use phantom_share.Result.{http, ok, raise_if-bind-eq-ok, or_raise-bind-eq-ok, ok-state, ok-value}
use phantom_share.Sql.{select_one, update, count}
use phantom_share.Sql.Laws.{select_one-update_self, select_one-delete_kept}
use phantom_share.Sql.Counting.{select_one-delete_unique, count-update}
use phantom_share.Schema.{Db, UserRow, user_is, delete_secrets}
use phantom_share.Permissions.{CurrentUser}
use phantom_share.Versions.Inserts.{Request}
use phantom_share.Audit.{log_warning}
use phantom_share.Cleanup.{sweep, without_users, delete_users, delete_tracking, is_removable}
use phantom_share.Admin.{
  UserStatusResponse, two_days, switched, schedule_user_deletion, switch_user_activation,
  toggle_entry, status_response,
}
use phantom_share.Admin.Lockout.{log-users, switched-id}

is_removable-switched :
    (now later : ℕ) (u : UserRow)
    → u.is_active ≡ true
    → is_removable later (switched now u) ≡ leb (now + two_days) later
unfolding switched schedule_user_deletion
is_removable-switched now later u active = rw active

-- What a switch that returns has written, and the status that it returns.
pub switched-row :
    (id : ℕ) (who : CurrentUser) (request : Request) (db : Db) {u : UserRow}
    {answer : UserStatusResponse} {db' : Db}
    → select_one (user_is id) db.users ≡ some u
    → switch_user_activation id who request db ≡ ok (answer, db')
    → (db'.users ≡ update (user_is id) (switched request.now) db.users)
      × (select_one (user_is id) (update (user_is id) (switched request.now) db.users)
          ≡ some (switched request.now u))
      × (answer ≡ status_response (switched request.now u))
unfolding switch_user_activation log_warning
switched-row id who request db {u} {answer} {db'} found h =
    let users = update (user_is id) (switched request.now) db.users in
    let (other, h1) =
      raise_if-bind-eq-ok (id == who.id) (http 400 "Cannot change your own activation status") _
        {a = (answer, db')} h in
    let (row, there, h2) =
      or_raise-bind-eq-ok (select_one (user_is id) users) (http 404 "User not found") _
        {b = (answer, db')} h1 in
    let new : select_one (user_is id) users ≡ some (switched request.now u) =
      select_one-update_self (user_is id) (switched request.now) db.users
        (λ r. ap (λ n. n == id) (switched-id request.now r)) found in
    let same : row ≡ switched request.now u = some-injective (sym there ∙ new) in
    (
      ap (λ d. d.users) (sym (ok-state h2))
          ∙ log-users "warning" (toggle_entry id row.is_active who request.client_ip) request.now
              (record db { users = users }),
      new,
      sym (ok-value h2) ∙ ap status_response same,
    )

-- Where an active account, alone under its id, is switched off, the answer says that it is inactive.
-- From the tables as the switch leaves them a sweep keeps the account while two days have not passed,
-- and removes it once they have.
pub switch_user_activation-sweep :
    (id later : ℕ) (who : CurrentUser) (request : Request) (db : Db) {u : UserRow}
    {answer : UserStatusResponse} {db' : Db}
    → select_one (user_is id) db.users ≡ some u
    → count (user_is id) db.users ≤ 1
    → u.is_active ≡ true
    → switch_user_activation id who request db ≡ ok (answer, db')
    → (answer.is_active ≡ false)
      × (later < request.now + two_days
          → select_one (user_is id) (sweep later db').users ≡ some (switched request.now u))
      × (request.now + two_days ≤ later → select_one (user_is id) (sweep later db').users ≡ none)
unfolding sweep without_users delete_users delete_tracking delete_secrets switched
    schedule_user_deletion
switch_user_activation-sweep id later who request db {u} {answer} {db'} found unique active h =
    let (users, row, status) = switched-row id who request db {u = u} found h in
    let now_row : select_one (user_is id) db'.users ≡ some (switched request.now u) =
      ap (select_one (user_is id)) users ∙ row in
    let alone : count (user_is id) db'.users ≡ count (user_is id) db.users =
      ap (count (user_is id)) users
      ∙ count-update (user_is id) (user_is id) (switched request.now) db.users
          (λ r. ap (λ n. n == id) (switched-id request.now r)) in
    let due = is_removable-switched request.now later u active in
    (
      ap (λ a. a.is_active) status ∙ rw active,
      λ early.
          select_one-delete_kept (user_is id) (is_removable later) db'.users now_row
            (due ∙ ground arith),
      λ late.
          select_one-delete_unique (user_is id) (is_removable later) db'.users now_row
            (omega (arith, alone)) (due ∙ ground arith),
    )
