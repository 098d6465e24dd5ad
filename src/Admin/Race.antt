-- ===== src/Admin/Race.antt =====
-- Two administrators who switch each other off at the same time.
use phantom_share.Prelude.{ℕ, ◌≡◌, ap, ◌∙◌, true, false, some, ◌==◌, arith}
use phantom_share.Result.{ok}
use phantom_share.Sql.{select_one, update}
use phantom_share.Sql.Laws.{select_one-update_self}
use phantom_share.Schema.{Db, UserRow, user_is}
use phantom_share.Permissions.{CurrentUser, require_admin, require_role}
use phantom_share.Versions.Inserts.{Request}
use phantom_share.Audit.{log_warning}
use phantom_share.Accounts.{bearer}
use phantom_share.Admin.{
  UserStatusResponse, status_response, toggle_entry, switched, schedule_user_deletion,
  switch_user_activation,
}
use phantom_share.Admin.Lockout.{IsAdmin, spared, switched-id}
use phantom_share.Admin.Grace.{switched-row}

switch_user_activation-ok :
    (id : ℕ) (who : CurrentUser) (request : Request) (db : Db) {u : UserRow}
    → (id == who.id) ≡ false
    → select_one (user_is id) db.users ≡ some u
    → (r : UserStatusResponse) × (db' : Db) × (switch_user_activation id who request db
        ≡ ok (r, db'))
unfolding switch_user_activation
switch_user_activation-ok id who request db {u} other found =
    let new : select_one (user_is id) (update (user_is id) (switched request.now) db.users)
        ≡ some (switched request.now u) =
      select_one-update_self (user_is id) (switched request.now) db.users
        (λ r. ap (λ n. n == id) (switched-id request.now r)) found in
    (
      status_response (switched request.now u),
      log_warning (toggle_entry id (switched request.now u).is_active who request.client_ip)
          request.now (record db { users = update (user_is id) (switched request.now) db.users }),
      rw (other, new),
    )

IsAdmin-active : (db : Db) (u : UserRow) → IsAdmin db u → u.is_active ≡ true
unfolding require_admin require_role
IsAdmin-active db u (found, passes) = ground arith

switched-inactive :
    (now : ℕ) (u : UserRow) → u.is_active ≡ true → (switched now u).is_active ≡ false
unfolding switched schedule_user_deletion
switched-inactive now u active = rw active

-- Where two different administrators are both let through before either writes, and each switches the other
-- off, both succeed, and neither of the two is active any more.
pub switch_user_activation_twice :
    (request request' : Request) (db : Db) {u v : UserRow}
    → IsAdmin db u
    → IsAdmin db v
    → (u.id == v.id) ≡ false
    → (r r' : UserStatusResponse) × (between after : Db) × (switch_user_activation v.id
          (bearer u)
          request
          db
        ≡ ok (r, between))
      × (switch_user_activation u.id (bearer v) request' between ≡ ok (r', after))
      × (u' v' : UserRow) × (select_one (user_is u.id) after.users ≡ some u')
      × (u'.is_active ≡ false)
      × (select_one (user_is v.id) after.users ≡ some v')
      × (v'.is_active ≡ false)
switch_user_activation_twice request request' db {u} {v} hu hv other =
    let (r, between, first) =
      switch_user_activation-ok v.id (bearer u) request db {u = v} (ground arith) hv.0 in
    let (users, row, _) = switched-row v.id (bearer u) request db {u = v} hv.0 first in
    let still : select_one (user_is u.id) between.users ≡ some u =
      ap (select_one (user_is u.id)) users
      ∙ spared v.id u.id (switched request.now) db.users (switched-id request.now) (ground arith)
          hu.0 in
    let (r', after, second) =
      switch_user_activation-ok u.id (bearer v) request' between {u = u} other still in
    let (users', row', _) = switched-row u.id (bearer v) request' between {u = u} still second in
    (
      r,
      r',
      between,
      after,
      first,
      second,
      switched request'.now u,
      switched request.now v,
      ap (select_one (user_is u.id)) users' ∙ row',
      switched-inactive request'.now u (IsAdmin-active db u hu),
      ap (select_one (user_is v.id)) users'
          ∙ spared u.id v.id (switched request'.now) between.users (switched-id request'.now) other
              (ap (select_one (user_is v.id)) users ∙ row),
      switched-inactive request.now v (IsAdmin-active db v hv),
    )
