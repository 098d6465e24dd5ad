-- ===== src/Admin/Lockout.antt =====
-- That the administrators cannot lock themselves out: the routes of app/routers/admin.py that change
-- users, behind the check of the caller, and the sweep of app/services/cleanup_service.py.
use phantom_share.Prelude.{
  ℕ, ◌≡◌, refl, ap, sym, ◌∙◌, inl, inr, String, true, false, not, some, List, [], ◌∷◌, ◌==◌, ==→≡,
  ltb, Bool-cases, Option-cases, arith, ◌&&◌,
}
use phantom_share.Result.{
  Result-cases, http, ok, >>=-eq-ok, or_raise-bind-eq-ok, raise_if-bind-eq-ok, ok-injective,
}
use phantom_share.Sql.{select_one, update}
use phantom_share.Sql.Laws.{select_one_sound, select_one-update_ne, select_one-delete_kept}
use phantom_share.Schema.{delete_secrets, Db, UserRow, user_is}
use phantom_share.Permissions.{
  CurrentUser, admin, level, requires, from_str, role_or_raise, require_admin, require_role,
}
use phantom_share.Versions.Inserts.{Request}
use phantom_share.Audit.{
  Entry, log, log_warning, log_critical, insert_entry, is_address, is_known_user, is_known_secret,
}
use phantom_share.Accounts.{
  Auth, bearer, session_live, kind_is, decode_token, find_bearer, get_current_user,
}
use phantom_share.Cleanup.{without_users, delete_users, delete_tracking, sweep, is_removable}
use phantom_share.Admin.{
  role_entry, toggle_entry, schedule_user_deletion, change_role, switch_user_activation, with_role,
  switched,
}
use phantom_share.Admin.Calls.{
  Command, set_role, switch, Call, Event, called, swept, perform, caller, step, run,
}

-- A user who passes the check for administrators.
abbrev pub IsAdmin : Db → UserRow → Type 0
IsAdmin db u =
    (select_one (user_is u.id) db.users ≡ some u) × (require_admin (bearer u) ≡ ok (bearer u))

abbrev pub HasAdmin : Db → Type 0
HasAdmin db = (u : UserRow) × IsAdmin db u

pub log-users :
    (severity : String) (e : Entry) (now : ℕ) (db : Db) → (log severity e now db).users ≡ db.users
unfolding log insert_entry
log-users severity e now db =
    elim (Bool-cases (
      is_address e.actor_ip db
      && (is_known_user e.actor_id db && is_known_secret e.secret_id db))) [
        | inl known ↦ rw known
        | inr unknown ↦ rw unknown
      ]

pub spared :
    (id keep : ℕ) (f : UserRow → UserRow) (users : List UserRow) {u : UserRow}
    → ((r : UserRow) → (f r).id ≡ r.id)
    → (id == keep) ≡ false
    → select_one (user_is keep) users ≡ some u
    → select_one (user_is keep) (update (user_is id) f users) ≡ some u
spared id keep f users {u} same other found =
    let its_own : (u.id == keep) ≡ true = select_one_sound (user_is keep) users found in
    select_one-update_ne (user_is keep) (user_is id) f users (λ r. ap (λ n. n == keep) (same r))
      (ground arith) found

pub switched-id : (now : ℕ) (u : UserRow) → (switched now u).id ≡ u.id
unfolding switched schedule_user_deletion
switched-id now u = ground arith

perform-spares :
    (c : Command) (who : CurrentUser) (request : Request) (db : Db) {u : UserRow}
    → select_one (user_is who.id) db.users ≡ some u
    → select_one (user_is who.id) (perform c who request db).users ≡ some u
unfolding perform change_role switch_user_activation log_critical log_warning
perform-spares (set_role id role) who request db {u} found =
    let users = update (user_is id) (with_role role request.now) db.users in
    elim (Bool-cases (id == who.id)) [
      | inl own ↦ rw own found
      | inr other ↦ elim (Option-cases (select_one (user_is id) users)) [
        | inl missing ↦ rw (other, missing) found
        | inr (row, there) ↦
            rw (other, there)
              (ap (select_one (user_is who.id)) (
                  log-users "critical" (role_entry id role who request.client_ip) request.now
                    (record db { users = users }))
                ∙ spared id who.id (with_role role request.now) db.users (λ r. refl) other found)
      ]
    ]
perform-spares (switch id) who request db {u} found =
    let users = update (user_is id) (switched request.now) db.users in
    elim (Bool-cases (id == who.id)) [
      | inl own ↦ rw own found
      | inr other ↦ elim (Option-cases (select_one (user_is id) users)) [
        | inl missing ↦ rw (other, missing) found
        | inr (row, there) ↦
            rw (other, there)
              (ap (select_one (user_is who.id)) (
                  log-users "warning" (toggle_entry id row.is_active who request.client_ip)
                    request.now (record db { users = users }))
                ∙ spared id who.id (switched request.now) db.users (switched-id request.now) other
                    found)
      ]
    ]

-- Who the bearer check lets through is a user of the tables, and the role check passes it on.
find_bearer-found :
    (auth : Auth) (sub sid now : ℕ) (db : Db) {who : CurrentUser}
    → find_bearer auth sub sid now db ≡ ok who
    → (u : UserRow) × (select_one (user_is sub) db.users ≡ some u) × (who ≡ bearer u)
unfolding find_bearer
find_bearer-found auth sub sid now db {who} h =
    let refused = http 401 "Session revoked, expired, or user inactive" in
    let (session, live, h1) =
      or_raise-bind-eq-ok (select_one (session_live sid sub now) db.sessions) refused _ {b = who}
        h in
    let (u, found, h2) =
      or_raise-bind-eq-ok (select_one (user_is sub) db.users) refused _ {b = who} h1 in
    let (active, h3) = raise_if-bind-eq-ok (not u.is_active) refused _ {a = who} h2 in
    (u, found, sym (ok-injective h3))

require_admin-same : (w : CurrentUser) {who : CurrentUser} → require_admin w ≡ ok who → w ≡ who
unfolding require_admin require_role
require_admin-same w {who} h =
    let (active, h1) =
      raise_if-bind-eq-ok (not w.is_active) (http 403 "Account is deactivated") _ {a = who} h in
    let (role, known, h2) = >>=-eq-ok (role_or_raise (from_str w.role)) _ {b = who} h1 in
    let (enough, h3) =
      raise_if-bind-eq-ok (ltb (level role) (level admin)) (http 403 (requires admin)) _ {a = who}
        h2 in
    ok-injective h3

caller-IsAdmin :
    (auth : Auth) (c : Call) (db : Db) {who : CurrentUser}
    → caller auth c db ≡ ok who
    → (u : UserRow) × (who ≡ bearer u) × IsAdmin db u
unfolding caller get_current_user
caller-IsAdmin auth c db {who} h =
    let (w, got, checked) =
      >>=-eq-ok (get_current_user auth c.credentials c.request.now db) require_admin {b = who} h in
    let (token, given, g1) =
      or_raise-bind-eq-ok c.credentials (http 401 "Not authenticated") _ {b = w} got in
    let (payload, decoded, g2) = >>=-eq-ok (decode_token auth token c.request.now) _ {b = w} g1 in
    let (access, g3) =
      raise_if-bind-eq-ok (not (kind_is "access" payload)) (http 401 "Wrong token type") _ {a = w}
        g2 in
    let (sub, named, g4) =
      or_raise-bind-eq-ok payload.sub (http 401 "Invalid user ID") _ {b = w} g3 in
    let (sid, session, g5) =
      or_raise-bind-eq-ok payload.sid (http 401 "Invalid or expired token") _ {b = w} g4 in
    let (u, found, same) = find_bearer-found auth sub sid c.request.now db {who = w} g5 in
    let its_id : u.id ≡ sub = ==→≡ u.id sub (select_one_sound (user_is sub) db.users found) in
    let let_through : w ≡ who = require_admin-same w checked in
    (
      u,
      sym let_through ∙ same,
      (rw its_id found, sym (ap require_admin same) ∙ checked ∙ ap ok (sym let_through ∙ same)),
    )

sweep-IsAdmin : (now : ℕ) (db : Db) (u : UserRow) → IsAdmin db u → IsAdmin (sweep now db) u
unfolding sweep without_users delete_users delete_tracking delete_secrets require_admin require_role
sweep-IsAdmin now db u (found, passes) =
    (select_one-delete_kept (user_is u.id) (is_removable now) db.users found (ground arith), passes)

step-HasAdmin : (auth : Auth) (e : Event) (db : Db) → HasAdmin db → HasAdmin (step auth e db)
step-HasAdmin auth (swept now) db (u, h) = (u, sweep-IsAdmin now db u h)
step-HasAdmin auth (called c) db h = elim (Result-cases (caller auth c db)) [
  | inl (e, refused) ↦ rw refused h
  | inr (who, let_through) ↦
      let (u, same, (found, passes)) = caller-IsAdmin auth c db {who = who} let_through in
      let its_id : who.id ≡ u.id = ap (λ w. w.id) same in
      rw let_through (
        u,
        (
          rw (sym its_id) (perform-spares c.command who c.request db {u = u} (rw its_id found)),
          passes,
        ),
      )
]

-- While some user passes the check for administrators, some user does after any requests that change
-- roles or switch accounts on and off, and after any sweeps, when each request comes after the one
-- before it and its caller is checked on the tables that it finds.
pub run-HasAdmin :
    (auth : Auth) (es : List Event) (db : Db) → HasAdmin db → HasAdmin (run auth es db)
unfolding run
run-HasAdmin auth [] db h = h
run-HasAdmin auth (e ∷ es) db h = run-HasAdmin auth es (step auth e db) (step-HasAdmin auth e db h)
