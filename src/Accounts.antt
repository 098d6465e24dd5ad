-- ===== src/Accounts.antt =====
-- The accounts of app/routers/auth.py with the JWTs of app/core/security.py: what a token names, and
-- who the current user is.
pub mod Sessions
pub mod Verification
pub mod Login
pub mod Race
pub mod Rotation
pub mod Logout
pub mod Codes
use phantom_share.Prelude.{
  ℕ, ◌+◌, ◌*◌, ◌/◌, ◌≤◌, ◌≡◌, String, Bool, true, false, not, ◌&&◌, ◌||◌, Option, none, some, List,
  [], ◌∷◌, ◌==◌, ltb, str_eq, if◌then◌else◌,
}
use phantom_share.Text.{ci_eq}
use phantom_share.Result.{
  Exn, http, database_error, Result, ok, err, ◌>>=◌, ◌>>◌, raise_if, or_raise,
}
use phantom_share.Sql.{select_one, insert, exists}
use phantom_share.Schema.{Db, UserRow, SessionRow, user_is}
use phantom_share.Permissions.{CurrentUser}
use phantom_share.Tokens.{second}
use phantom_share.Audit.{Entry, log}
use phantom_share.Versions.Inserts.{Request}

-- The payload of a JWT. `exp` and `iat` are numbers of seconds, and `none` is an entry that is
-- missing or empty.
pub record Claims : Type 0 where
  pub sub : Option ℕ
  pub role : Option String
  pub sid : Option ℕ
  pub jti : ℕ
  pub exp : ℕ
  pub iat : ℕ
  pub kind : Option String

-- The JWT library with its key, the password hashes, SHA-256, the cast to `inet`, and the settings.
-- A token decodes to its payload up to and including the second `exp`.
pub record Auth : Type 0 where
  pub encode : Claims → String
  pub decode : String → ℕ → Option Claims
  pub decode-encode : (c : Claims) (now : ℕ) → now / second ≤ c.exp → decode (encode c) now ≡ some c
  pub hash_password : String → ℕ → String
  pub verify_password : String → String → Bool
  pub sha256_hash : String → String
  pub is_inet : String → Bool
  pub access_minutes : ℕ
  pub refresh_days : ℕ

abbrev pub kind_is : String → Claims → Bool
kind_is kind c = elim c.kind [ none ↦ false | some k ↦ str_eq k kind ]

-- What a request draws for a session: its id, and the `jti` of its two tokens.
pub record SessionDraw : Type 0 where
  pub session_id : ℕ
  pub access_jti : ℕ
  pub refresh_jti : ℕ

abbrev pub session_live : ℕ → ℕ → ℕ → SessionRow → Bool
session_live sid sub now r =
    r.id == sid && r.user_id == sub && not r.revoked && ltb now r.expires_at

abbrev pub bearer : UserRow → CurrentUser
bearer u = record {
  id = u.id;
  email = u.email;
  role = u.role;
  is_active = u.is_active;
  is_verified = u.is_verified;
}

module _ (auth : Auth) where
  abbrev pub access_claims : ℕ → String → SessionDraw → ℕ → Claims
  access_claims user_id role drawn now = record {
    sub = some user_id;
    role = some role;
    sid = some drawn.session_id;
    jti = drawn.access_jti;
    exp = (now + auth.access_minutes * 60 * second) / second;
    iat = now / second;
    kind = some "access";
  }

  unfoldable pub create_access_token : ℕ → String → SessionDraw → ℕ → String
  create_access_token user_id role drawn now = auth.encode (access_claims user_id role drawn now)

  abbrev pub refresh_expiry : ℕ → ℕ
  refresh_expiry now = now + auth.refresh_days * 86400 * second

  abbrev pub refresh_claims : ℕ → SessionDraw → ℕ → Claims
  refresh_claims user_id drawn now = record {
    sub = some user_id;
    role = none;
    sid = some drawn.session_id;
    jti = drawn.refresh_jti;
    exp = refresh_expiry now / second;
    iat = now / second;
    kind = some "refresh";
  }

  unfoldable pub create_refresh_token : ℕ → SessionDraw → ℕ → String × ℕ
  create_refresh_token user_id drawn now =
      (auth.encode (refresh_claims user_id drawn now), refresh_expiry now)

  unfoldable pub decode_token : String → ℕ → Result Claims
  decode_token token now = or_raise (auth.decode token now) (http 401 "Invalid or expired token.")

  -- The join of the users and the sessions, for a token that names `sub` and `sid`.
  unfoldable pub find_bearer : ℕ → ℕ → ℕ → Db → Result CurrentUser
  find_bearer sub sid now db = do
    _ ←
        or_raise (select_one (session_live sid sub now) db.sessions)
          (http 401 "Session revoked, expired, or user inactive")
    u ←
        or_raise (select_one (user_is sub) db.users)
          (http 401 "Session revoked, expired, or user inactive")
    raise_if (not u.is_active) (http 401 "Session revoked, expired, or user inactive")
    ok (bearer u)

  -- `get_current_user`
  unfoldable pub get_current_user : Option String → ℕ → Db → Result CurrentUser
  unfolding decode_token find_bearer
  get_current_user credentials now db = do
    token ← or_raise credentials (http 401 "Not authenticated")
    payload ← decode_token token now
    raise_if (not (kind_is "access" payload)) (http 401 "Wrong token type")
    sub ← or_raise payload.sub (http 401 "Invalid user ID")
    sid ← or_raise payload.sid (http 401 "Invalid or expired token")
    find_bearer sub sid now db

  abbrev pub anonymous : Result CurrentUser → Result (Option CurrentUser)
  anonymous (ok who) = ok (some who)
  anonymous (err (http code text)) =
      if code == 401 || code == 403 then ok none else err (http code text)
  anonymous (err e) = err e

  -- `get_current_user_optional`
  unfoldable pub get_current_user_optional : Option String → ℕ → Db → Result (Option CurrentUser)
  unfolding get_current_user
  get_current_user_optional none now db = ok none
  get_current_user_optional (some token) now db = anonymous (get_current_user (some token) now db)

  pub record RegisterRequest : Type 0 where
    pub email : String
    pub username : String
    pub password : String

  abbrev pub is_taken : RegisterRequest → UserRow → Bool
  is_taken body r = ci_eq r.email body.email || str_eq r.username body.username

  abbrev pub new_user : RegisterRequest → ℕ → ℕ → ℕ → UserRow
  new_user body id salt now = record {
    id = id;
    email = body.email;
    username = body.username;
    role = "user";
    is_active = true;
    is_verified = false;
    password_hash = auth.hash_password body.password salt;
    created_at = now;
    updated_at = now;
    delete_after = none;
  }

  abbrev pub registered_entry : ℕ → String → Entry
  registered_entry id client_ip = record {
    action = "user_registered";
    actor_id = some id;
    actor_ip = some client_ip;
    secret_id = none;
    metadata = [];
  }

  -- `register`: `id` is drawn by the database, and `salt` by the hash.
  unfoldable pub register : RegisterRequest → Request → ℕ → ℕ → Db → Result (UserRow × Db)
  register body request id salt db = do
    raise_if (exists (is_taken body) db.users) (http 409 "Email or username already taken")
    raise_if (exists (user_is id) db.users) database_error
    let user = new_user body id salt request.now
    ok (
      user,
      log "info" (registered_entry id request.client_ip) request.now
          (record db { users = insert user db.users }),
    )

  -- `me`
  unfoldable pub me : CurrentUser → Db → Result UserRow
  me who db = or_raise (select_one (user_is who.id) db.users) (http 404 "User not found.")
