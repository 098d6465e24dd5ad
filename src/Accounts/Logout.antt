-- ===== src/Accounts/Logout.antt =====
-- A session that was signed out of.
use phantom_share.Prelude.{
  ℕ, ◌≤◌, ◌≡◌, refl, sym, ap, ◌∙◌, String, false, none, some, Bool-cases, Option-cases, inl, inr,
  ◌==◌, arith,
}
use phantom_share.Result.{ok, ok-injective, raise_if-bind-eq-ok}
use phantom_share.Sql.{select_one, exists, delete, count}
use phantom_share.Sql.Laws.{exists-narrow, select_one-none}
use phantom_share.Sql.Counting.{exists-delete_key}
use phantom_share.Schema.{Db}
use phantom_share.Audit.{log}
use phantom_share.Audit.Laws.{log_keeps}
use phantom_share.Accounts.{
  Auth, Claims, kind_is, session_live, decode_token, find_bearer, get_current_user,
}
use phantom_share.Accounts.Sessions.{session_is, signed_out, event, revoke, logout}
use phantom_share.Accounts.Rotation.{Unauthorized}

module _ (auth : Auth) where
  logout-parts :
      (token : String) (now sub sid : ℕ) (db : Db) {payload : Claims} {db' : Db}
      → auth.decode token now ≡ some payload
      → payload.sub ≡ some sub
      → payload.sid ≡ some sid
      → logout auth token now db ≡ ok db'
      → ((count (signed_out auth sub (some sid) (auth.sha256_hash token)) db.sessions == 0) ≡ false)
        × (log "info"
              (event "user_logout" sub none)
              now
              (revoke (signed_out auth sub (some sid) (auth.sha256_hash token)) db)
            ≡ db')
  unfolding logout decode_token
  logout-parts token now sub sid db {payload} {db'} read of_user of_session h =
      let row = signed_out auth sub (some sid) (auth.sha256_hash token) in
      let h1 = rw (read, of_user, of_session) at h in
      let (fits, h2) = raise_if-bind-eq-ok _ _ _ {a = db'} h1 in
      let (some_row, h3) = raise_if-bind-eq-ok _ _ _ {a = db'} h2 in (some_row, ok-injective h3)

  -- Without a session there is no bearer.
  find_bearer-unknown :
      (sub sid now : ℕ) (db : Db)
      → exists (session_is sid) db.sessions ≡ false
      → Unauthorized (find_bearer auth sub sid now db)
  unfolding find_bearer
  find_bearer-unknown sub sid now db gone =
      let none_found : select_one (session_live sid sub now) db.sessions ≡ none =
        select_one-none (session_live sid sub now) db.sessions (
          exists-narrow (session_live sid sub now) (session_is sid) db.sessions
            (λ r e. ground arith) gone) in
      rw none_found refl

  -- Nor does a token that names it authenticate anybody.
  get_current_user-unknown :
      (token : String) (sid now : ℕ) (db : Db) {payload : Claims}
      → auth.decode token now ≡ some payload
      → payload.sid ≡ some sid
      → exists (session_is sid) db.sessions ≡ false
      → Unauthorized (get_current_user auth (some token) now db)
  unfolding get_current_user decode_token
  get_current_user-unknown token sid now db {payload} read of_session gone =
      rw read (elim (Bool-cases (kind_is "access" payload)) [
        | inr other ↦ rw other refl
        | inl fits ↦ elim (Option-cases payload.sub) [
          | inl nobody ↦ rw (fits, nobody) refl
          | inr named ↦ rw (fits, named.1, of_session) (find_bearer-unknown named.0 sid now db gone)
        ]
      ])

-- Whoever signs out with the refresh token of a session ends it: no token that names that session
-- authenticates anybody from then on. The session id is a key of the table.
logout-get_current_user :
    (auth : Auth) (token access_token : String) (now later sub sid : ℕ) (db : Db)
    {payload access : Claims} {db' : Db}
    → count (session_is sid) db.sessions ≤ 1
    → auth.decode token now ≡ some payload
    → payload.sub ≡ some sub
    → payload.sid ≡ some sid
    → auth.decode access_token later ≡ some access
    → access.sid ≡ some sid
    → logout auth token now db ≡ ok db'
    → Unauthorized (get_current_user auth (some access_token) later db')
unfolding revoke
logout-get_current_user auth token access_token now later sub sid db {payload} {access} {db'} key
      read of_user of_session read' of_access h =
    let (some_row, logged) = logout-parts auth token now sub sid db read of_user of_session h in
    let row = signed_out auth sub (some sid) (auth.sha256_hash token) in
    let entry = event "user_logout" sub none in
    let gone : exists (session_is sid) (delete row db.sessions) ≡ false =
      exists-delete_key row (session_is sid) db.sessions (λ r e. ground arith) key some_row in
    let sessions : db'.sessions ≡ delete row db.sessions =
      ap (λ d. d.sessions) (sym logged ∙ log_keeps "info" entry now (revoke row db)) in
    get_current_user-unknown auth access_token sid later db' read' of_access
      (ap (exists (session_is sid)) sessions ∙ gone)
