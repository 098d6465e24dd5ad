-- ===== src/Accounts/Login.antt =====
-- Whom the access token of a login stands for.
use mathlib.Core.Path.{subst}
use phantom_share.Prelude.{
  ℕ, ◌+◌, ◌*◌, ◌<◌, ◌≤◌, ◌≡◌, sym, ap, ◌∙◌, String, true, false, some, lt→ltb, ==-self, arith,
}
use phantom_share.Result.{ok, >>=-eq-ok}
use phantom_share.Sql.{select_one, exists, insert}
use phantom_share.Sql.Laws.{select_one-insert_new, exists-narrow}
use phantom_share.Schema.{Db, UserRow, SessionRow, user_is}
use phantom_share.Tokens.{second}
use phantom_share.Audit.{log}
use phantom_share.Audit.Laws.{log_keeps}
use phantom_share.Versions.Inserts.{Request}
use phantom_share.Accounts.{
  Auth, SessionDraw, session_live, bearer, access_claims, refresh_expiry, create_access_token,
  create_refresh_token, decode_token, find_bearer, get_current_user,
}
use phantom_share.Accounts.Sessions.{
  TokenResponse, session_is, email_is, event, new_session, insert_session, tokens, open_session,
  check_login, login,
}

module _ (auth : Auth) where
  -- The INSERT of a session, in its parts.
  pub insert_session-parts :
      (row : SessionRow) (db : Db) {db1 : Db}
      → insert_session auth row db ≡ ok db1
      → (exists (session_is row.id) db.sessions ≡ false)
        × (record db { sessions = insert row db.sessions } ≡ db1)
  unfolding insert_session
  insert_session-parts row db h = ground arith

  check_login-row :
      (email password : String) (db : Db) {row : UserRow}
      → check_login auth email password db ≡ ok row
      → (select_one (email_is email) db.users ≡ some row)
        × (auth.verify_password password row.password_hash ≡ true)
        × (row.is_active ≡ true)
  unfolding check_login
  check_login-row email password db h = ground arith

  -- An access token that has not expired leads to the session that it names.
  get_current_user-token :
      (user_id : ℕ) (role : String) (drawn : SessionDraw) (now later : ℕ) (db : Db)
      → later ≤ now + auth.access_minutes * 60 * second
      → get_current_user auth (some (create_access_token auth user_id role drawn now)) later db
        ≡ find_bearer auth user_id drawn.session_id later db
  unfolding get_current_user decode_token create_access_token
  get_current_user-token user_id role drawn now later db h =
      rw (auth.decode-encode (access_claims auth user_id role drawn now) later (omega arith))

  -- A new session whose user is active leads to that user until it expires.
  find_bearer-session :
      (user_agent : String) (drawn : SessionDraw) (request : Request) (later : ℕ) (row : UserRow)
      (db db' : Db)
      → exists (session_is drawn.session_id) db.sessions ≡ false
      → select_one (user_is row.id) db.users ≡ some row
      → row.is_active ≡ true
      → later < refresh_expiry auth request.now
      → db'.users ≡ db.users
      → db'.sessions ≡ insert (new_session auth row.id user_agent drawn request) db.sessions
      → find_bearer auth row.id drawn.session_id later db' ≡ ok (bearer row)
  unfolding find_bearer create_refresh_token
  find_bearer-session user_agent drawn request later row db db' fresh found active h users
        sessions =
      let session = new_session auth row.id user_agent drawn request in
      let live = session_live drawn.session_id row.id later in
      let there : select_one live (insert session db.sessions) ≡ some session =
        select_one-insert_new live session db.sessions
          (exists-narrow live (session_is drawn.session_id) db.sessions (λ r e. ground arith) fresh)
          (rw (
            ==-self drawn.session_id,
            ==-self row.id,
            lt→ltb later (refresh_expiry auth request.now) h,
          )) in
      rw (sessions, users, there, found, active)

  -- What a new session leaves.
  pub open_session-parts :
      (action : String) (user_id : ℕ) (role user_agent : String) (request : Request)
      (drawn : SessionDraw) (db : Db) {r : TokenResponse} {db' : Db}
      → open_session auth action user_id role user_agent request drawn db ≡ ok (r, db')
      → (r ≡ tokens auth user_id role drawn request.now)
        × (exists (session_is drawn.session_id) db.sessions ≡ false)
        × (db'.users ≡ db.users)
        × (db'.sessions ≡ insert (new_session auth user_id user_agent drawn request) db.sessions)
  unfolding open_session
  open_session-parts action user_id role user_agent request drawn db {r} {db'} h =
      let (db1, inserted, h1) =
        >>=-eq-ok (insert_session auth (new_session auth user_id user_agent drawn request) db) _
          {b = (r, db')} h in
      let (fresh, written) =
        insert_session-parts (new_session auth user_id user_agent drawn request) db inserted in
      let entry = event action user_id (some request.client_ip) in
      let logged : log "info" entry request.now db1 ≡ db' = cc in
      let kept = log_keeps "info" entry request.now db1 in
      (
        cc,
        fresh,
        ap (λ d. d.users) (sym logged ∙ kept) ∙ ap (λ d. d.users) (sym written),
        ap (λ d. d.sessions) (sym logged ∙ kept) ∙ ap (λ d. d.sessions) (sym written),
      )

-- The access token of a login authenticates the user of that address and of no other: with it, and
-- as long as neither the token nor the session has expired, the current user is the one whose password
-- was checked. No other user has the same id.
pub login-get_current_user :
    (auth : Auth) (email password user_agent : String) (request : Request) (drawn : SessionDraw)
    (later : ℕ) (db : Db) {row : UserRow} {r : TokenResponse} {db' : Db}
    → select_one (email_is email) db.users ≡ some row
    → select_one (user_is row.id) db.users ≡ some row
    → later ≤ request.now + auth.access_minutes * 60 * second
    → later < refresh_expiry auth request.now
    → login auth email password user_agent request drawn db ≡ ok (r, db')
    → (auth.verify_password password row.password_hash ≡ true)
      × (get_current_user auth (some r.access_token) later db' ≡ ok (bearer row))
unfolding login
login-get_current_user auth email password user_agent request drawn later db {row} {r} {db'}
      by_email by_id h1 h2 h =
    let (row', checked, h3) = >>=-eq-ok (check_login auth email password db) _ {b = (r, db')} h in
    let (by_email', good, active) = check_login-row auth email password db checked in
    let same : row' ≡ row = cc in
    let opened : open_session auth "user_login" row.id row.role user_agent request drawn db
        ≡ ok (r, db') =
      subst
        (λ x. open_session auth "user_login" x.id x.role user_agent request drawn db ≡ ok (r, db'))
        same h3 in
    let (answer, fresh, users, sessions) =
      open_session-parts auth "user_login" row.id row.role user_agent request drawn db opened in
    (
      subst (λ x. auth.verify_password password x.password_hash ≡ true) same good,
      ap (λ x. get_current_user auth (some x.access_token) later db') answer
          ∙ get_current_user-token auth row.id row.role drawn request.now later db' h1
          ∙ find_bearer-session auth user_agent drawn request later row db db' fresh by_id
              (subst (λ x. x.is_active ≡ true) same active) h2 users sessions,
    )
