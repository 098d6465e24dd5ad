-- ===== src/Accounts/Sessions.antt =====
-- `login`, `refresh_token_endpoint` and `logout` of app/routers/auth.py.
use phantom_share.Prelude.{
  ℕ, ◌*◌, String, Bool, false, not, ◌&&◌, Option, none, some, [], ◌==◌, ltb, str_eq,
}
use phantom_share.Text.{ci_eq}
use phantom_share.Result.{http, database_error, Result, ok, ◌>>=◌, ◌>>◌, raise_if, or_raise}
use phantom_share.Sql.{select_one, insert, delete, exists, count}
use phantom_share.Schema.{Db, UserRow, SessionRow, user_is}
use phantom_share.Audit.{Entry, log}
use phantom_share.Versions.Inserts.{Request}
use phantom_share.Accounts.{
  Auth, SessionDraw, kind_is, create_access_token, create_refresh_token, decode_token,
}

pub record TokenResponse : Type 0 where
  pub access_token : String
  pub refresh_token : String
  pub expires_in : ℕ

abbrev pub email_is : String → UserRow → Bool
email_is email r = ci_eq r.email email

abbrev pub session_is : ℕ → SessionRow → Bool
session_is id r = r.id == id

abbrev pub hash_is : String → SessionRow → Bool
hash_is h r = str_eq r.refresh_token_hash h

-- The SELECT of a refresh, the role of the user apart.
abbrev pub refreshable : String → ℕ → SessionRow → Bool
refreshable h now r = hash_is h r && not r.revoked && ltb now r.expires_at

-- `UPDATE sessions SET revoked = TRUE WHERE p`: the trigger `delete_session_if_invalid` deletes each
-- row that it sets.
unfoldable pub revoke : (SessionRow → Bool) → Db → Db
revoke p db = record db { sessions = delete p db.sessions }

abbrev pub event : String → ℕ → Option String → Entry
event action user_id client_ip = record {
  action = action;
  actor_id = some user_id;
  actor_ip = client_ip;
  secret_id = none;
  metadata = [];
}

module _ (auth : Auth) where
  abbrev pub new_session : ℕ → String → SessionDraw → Request → SessionRow
  new_session user_id user_agent drawn request =
      let (refresh_token, expires_at) = create_refresh_token auth user_id drawn request.now in
      record {
        id = drawn.session_id;
        user_id = user_id;
        refresh_token_hash = auth.sha256_hash refresh_token;
        user_agent = user_agent;
        ip_address = request.client_ip;
        expires_at = expires_at;
        revoked = false;
      }

  -- The INSERT into sessions, with its keys, its cast and its reference to the user.
  unfoldable pub insert_session : SessionRow → Db → Result Db
  insert_session row db = do
    raise_if (exists (session_is row.id) db.sessions) database_error
    raise_if (exists (hash_is row.refresh_token_hash) db.sessions) database_error
    raise_if (not (auth.is_inet row.ip_address)) database_error
    raise_if (not (exists (user_is row.user_id) db.users)) database_error
    ok (record db { sessions = insert row db.sessions })

  abbrev pub tokens : ℕ → String → SessionDraw → ℕ → TokenResponse
  tokens user_id role drawn now = record {
    access_token = create_access_token auth user_id role drawn now;
    refresh_token = (create_refresh_token auth user_id drawn now).0;
    expires_in = auth.access_minutes * 60;
  }

  -- A new session with its tokens, and the audit entry on a connection of its own.
  unfoldable pub open_session :
      String → ℕ → String → String → Request → SessionDraw → Db → Result (TokenResponse × Db)
  unfolding insert_session
  open_session action user_id role user_agent request drawn db = do
    db1 ← insert_session (new_session user_id user_agent drawn request) db
    ok (
      tokens user_id role drawn request.now,
      log "info" (event action user_id (some request.client_ip)) request.now db1,
    )

  -- The guards of `login`.
  unfoldable pub check_login : String → String → Db → Result UserRow
  check_login email password db = do
    row ← or_raise (select_one (email_is email) db.users) (http 401 "Invalid credentials")
    raise_if (not (auth.verify_password password row.password_hash))
        (http 401 "Invalid credentials")
    raise_if (not row.is_active) (http 403 "Account is deactivated")
    ok row

  -- `login`
  unfoldable pub login :
      String → String → String → Request → SessionDraw → Db → Result (TokenResponse × Db)
  unfolding check_login open_session
  login email password user_agent request drawn db = do
    row ← check_login email password db
    open_session "user_login" row.id row.role user_agent request drawn db

  -- The part of `refresh_token_endpoint` that reads: the user of the session, and the role.
  unfoldable pub check_refresh : String → ℕ → Db → Result (ℕ × String)
  unfolding decode_token
  check_refresh token now db = do
    payload ← decode_token auth token now
    raise_if (not (kind_is "refresh" payload)) (http 401 "Wrong token type")
    s ←
        or_raise (select_one (refreshable (auth.sha256_hash token) now) db.sessions)
          (http 401 "Refresh token invalid or expired")
    u ←
        or_raise (select_one (user_is s.user_id) db.users)
          (http 401 "Refresh token invalid or expired")
    raise_if (not u.is_active) (http 401 "Refresh token invalid or expired")
    ok (u.id, u.role)

  -- The part that writes: the old session goes and a new one comes.
  unfoldable pub rotate :
      String → ℕ → String → String → Request → SessionDraw → Db → Result (TokenResponse × Db)
  unfolding revoke open_session
  rotate token user_id role user_agent request drawn db =
      open_session "token_refresh" user_id role user_agent request drawn
        (revoke (hash_is (auth.sha256_hash token)) db)

  -- `refresh_token_endpoint`. The SELECT locks nothing: `meanwhile` is what other requests do before
  -- the UPDATE.
  unfoldable pub refresh_token_endpoint :
      String → String → Request → SessionDraw → (Db → Db) → Db → Result (TokenResponse × Db)
  unfolding check_refresh rotate
  refresh_token_endpoint token user_agent request drawn meanwhile db = do
    (user_id, role) ← check_refresh token request.now db
    rotate token user_id role user_agent request drawn (meanwhile db)

  -- The WHERE of the UPDATE of `logout`.
  abbrev pub signed_out : ℕ → Option ℕ → String → SessionRow → Bool
  signed_out sub none h r = hash_is h r && r.user_id == sub && not r.revoked
  signed_out sub (some sid) h r = r.id == sid && r.user_id == sub && hash_is h r && not r.revoked

  -- `logout`
  unfoldable pub logout : String → ℕ → Db → Result Db
  unfolding decode_token revoke
  logout token now db = do
    payload ← decode_token auth token now
    raise_if (not (kind_is "refresh" payload)) (http 401 "Wrong token type")
    sub ← or_raise payload.sub (http 401 "Invalid token subject")
    let row = signed_out sub payload.sid (auth.sha256_hash token)
    raise_if (count row db.sessions == 0)
        (http 401 "Session not found, already revoked, or refresh token was rotated")
    ok (log "info" (event "user_logout" sub none) now (revoke row db))
