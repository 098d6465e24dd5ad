-- ===== src/Accounts/Race.antt =====
-- Two refreshes of one token at the same time.
use phantom_share.Prelude.{
  ℕ, ◌≡◌, ◌≢◌, refl, sym, ap, ◌∙◌, String, Bool, true, false, not, ◌&&◌, some, List, [], ◌∷◌,
  ==-self, str_eq-ne, arith,
}
use phantom_share.Result.{ok, >>=-eq-ok, ◌>>=◌}
use phantom_share.Sql.{exists, delete, insert}
use phantom_share.Sql.Laws.{exists-insert_other, exists-insert_new, delete-none}
use phantom_share.Schema.{Db, SessionRow, user_is}
use phantom_share.Audit.{log}
use phantom_share.Audit.Laws.{log_keeps}
use phantom_share.Versions.Inserts.{Request}
use phantom_share.Accounts.{Auth, SessionDraw}
use phantom_share.Accounts.Sessions.{
  TokenResponse, hash_is, session_is, revoke, new_session, insert_session, open_session, tokens,
  event, check_refresh, rotate, refresh_token_endpoint,
}
use phantom_share.Accounts.Login.{open_session-parts}
use phantom_share.Accounts.Rotation.{rotate-gone}

-- The session is there and not revoked.
abbrev pub is_live : ℕ → SessionRow → Bool
is_live id s = session_is id s && not s.revoked

exists-insert_old {ℓ} :
    {A : Type ℓ} (p : A → Bool) (r : A) (rows : List A)
    → exists p rows ≡ true
    → exists p (insert r rows) ≡ true
unfolding exists insert
exists-insert_old p r [] h = cc
exists-insert_old p r (x ∷ rows) h = ground (arith, exists-insert_old p r rows)

module _ (auth : Auth) where
  -- The guards of the INSERT.
  abbrev Fits : SessionRow → Db → Type 0
  Fits row db =
      (exists (session_is row.id) db.sessions ≡ false)
      × (exists (hash_is row.refresh_token_hash) db.sessions ≡ false)
      × (auth.is_inet row.ip_address ≡ true)
      × (exists (user_is row.user_id) db.users ≡ true)

  insert_session-Fits :
      (row : SessionRow) (db : Db) {db' : Db} → insert_session auth row db ≡ ok db' → Fits row db
  unfolding insert_session
  insert_session-Fits row db h = ground arith

  insert_session_total :
      (row : SessionRow) (db : Db)
      → Fits row db
      → insert_session auth row db ≡ ok (record db { sessions = insert row db.sessions })
  unfolding insert_session
  insert_session_total row db (a, b, c, d) = rw (a, b, c, d) refl

  module _ (action : String) (user_id : ℕ) (role user_agent : String) (request : Request)
      (drawn : SessionDraw) (db : Db) where
    abbrev session : SessionRow
    session = new_session auth user_id user_agent drawn request

    open_session-Fits :
        {r : TokenResponse} {db' : Db}
        → open_session auth action user_id role user_agent request drawn db ≡ ok (r, db')
        → Fits session db
    unfolding open_session
    open_session-Fits {r} {db'} h =
        let (db1, inserted, _) = >>=-eq-ok (insert_session auth session db) _ {b = (r, db')} h in
        insert_session-Fits session db {db' = db1} inserted

    open_session_total :
        Fits session db
        → (db' : Db) × (open_session auth action user_id role user_agent request drawn db
            ≡ ok (tokens auth user_id role drawn request.now, db'))
          × (db'.sessions ≡ insert session db.sessions)
    unfolding open_session
    open_session_total fits =
        let db1 = record db { sessions = insert session db.sessions } in
        (
          log "info" (event action user_id (some request.client_ip)) request.now db1,
          rw (insert_session_total session db fits) refl,
          ap (λ d. d.sessions)
              (log_keeps "info" (event action user_id (some request.client_ip)) request.now db1),
        )

live-session :
    (auth : Auth) (user_id : ℕ) (user_agent : String) (request : Request) (drawn : SessionDraw)
    → is_live drawn.session_id (new_session auth user_id user_agent drawn request) ≡ true
live-session auth user_id user_agent request drawn = rw (==-self drawn.session_id) refl

-- The writes of the two refreshes, the second one's first.
rotate_twice :
    (auth : Auth) (token role role' user_agent user_agent' : String) (user_id user_id' : ℕ)
    (request request' : Request) (drawn drawn' : SessionDraw) (db : Db) {r r' : TokenResponse}
    {alone between : Db}
    → drawn.session_id ≢ drawn'.session_id
    → auth.sha256_hash r.refresh_token ≢ auth.sha256_hash r'.refresh_token
    → auth.sha256_hash r'.refresh_token ≢ auth.sha256_hash token
    → rotate auth token user_id role user_agent request drawn db ≡ ok (r, alone)
    → rotate auth token user_id' role' user_agent' request' drawn' db ≡ ok (r', between)
    → (db' : Db) × (rotate auth token user_id role user_agent request drawn between ≡ ok (r, db'))
      × (exists (is_live drawn.session_id) db'.sessions ≡ true)
      × (exists (is_live drawn'.session_id) db'.sessions ≡ true)
unfolding rotate revoke
rotate_twice auth token role role' user_agent user_agent' user_id user_id' request request' drawn
      drawn' db {r} {r'} {alone} {between} ids hashes other h h' =
    let h0 = auth.sha256_hash token in
    let start = revoke (hash_is h0) db in
    let s = new_session auth user_id user_agent drawn request in
    let s' = new_session auth user_id' user_agent' drawn' request' in
    let (answer, fresh, _, _) =
      open_session-parts auth "token_refresh" user_id role user_agent request drawn start {r = r}
        {db' = alone} h in
    let (id_free, hash_free, inet, user) =
      open_session-Fits auth "token_refresh" user_id role user_agent request drawn start {r = r}
        {db' = alone} h in
    let (answer', fresh', users', sessions') =
      open_session-parts auth "token_refresh" user_id' role' user_agent' request' drawn' start
        {r = r'} {db' = between} h' in
    let used_up =
      rotate-gone auth token user_id' role' user_agent' request' drawn' db {r = r'} {db' = between}
        other h' in
    let rows : delete (hash_is h0) between.sessions ≡ insert s' start.sessions =
      delete-none (hash_is h0) between.sessions used_up ∙ sessions' in
    let other_id : session_is drawn.session_id s' ≡ false = ground (arith, ids) in
    let other_hash : hash_is s.refresh_token_hash s' ≡ false =
      str_eq-ne s'.refresh_token_hash s.refresh_token_hash (λ e. hashes (
        ap (λ x. auth.sha256_hash x.refresh_token) answer
        ∙ (sym e ∙ sym (ap (λ x. auth.sha256_hash x.refresh_token) answer')))) in
    let fits : Fits auth s (revoke (hash_is h0) between) = (
      ap (exists (session_is drawn.session_id)) rows
          ∙ exists-insert_other (session_is drawn.session_id) s' start.sessions other_id id_free,
      ap (exists (hash_is s.refresh_token_hash)) rows
          ∙ exists-insert_other (hash_is s.refresh_token_hash) s' start.sessions other_hash
              hash_free,
      inet,
      ap (exists (user_is s.user_id)) users' ∙ user,
    ) in
    let (db', opened, sessions) =
      open_session_total auth "token_refresh" user_id role user_agent request drawn
        (revoke (hash_is h0) between) fits in
    let both : db'.sessions ≡ insert s (insert s' start.sessions) = sessions ∙ ap (insert s) rows in
    (
      db',
      opened ∙ ap (λ x. ok (x, db')) (sym answer),
      ap (exists (is_live drawn.session_id)) both
          ∙ exists-insert_new (is_live drawn.session_id) s (insert s' start.sessions)
              (live-session auth user_id user_agent request drawn),
      ap (exists (is_live drawn'.session_id)) both
          ∙ exists-insert_old (is_live drawn'.session_id) s (insert s' start.sessions) (
              exists-insert_new (is_live drawn'.session_id) s' start.sessions
                (live-session auth user_id' user_agent' request' drawn')),
    )

-- Two refreshes of one token at the same time both succeed. Where each of two requests alone would be
-- answered, and the second commits between the SELECT and the UPDATE of the first, the first is
-- answered all the same, with the tokens that it would have got alone, and the sessions of both are
-- live. The sessions have different ids, and the hashes of the three refresh tokens differ.
pub refresh_token_endpoint_twice :
    (auth : Auth) (token user_agent user_agent' : String) (request request' : Request)
    (drawn drawn' : SessionDraw) (db : Db) {r r' : TokenResponse} {alone between : Db}
    → drawn.session_id ≢ drawn'.session_id
    → auth.sha256_hash r.refresh_token ≢ auth.sha256_hash r'.refresh_token
    → auth.sha256_hash r'.refresh_token ≢ auth.sha256_hash token
    → refresh_token_endpoint auth token user_agent request drawn (λ d. d) db ≡ ok (r, alone)
    → refresh_token_endpoint auth token user_agent' request' drawn' (λ d. d) db ≡ ok (r', between)
    → (db' : Db) × (refresh_token_endpoint auth token user_agent request drawn (λ _. between) db
        ≡ ok (r, db'))
      × (exists (is_live drawn.session_id) db'.sessions ≡ true)
      × (exists (is_live drawn'.session_id) db'.sessions ≡ true)
unfolding refresh_token_endpoint
refresh_token_endpoint_twice auth token user_agent user_agent' request request' drawn drawn' db {r}
      {r'} {alone} {between} ids hashes other h h' =
    let ((user_id, role), checked, h1) =
      >>=-eq-ok (check_refresh auth token request.now db) _ {b = (r, alone)} h in
    let ((user_id', role'), checked', h1') =
      >>=-eq-ok (check_refresh auth token request'.now db) _ {b = (r', between)} h' in
    let (db', done, live, live') =
      rotate_twice auth token role role' user_agent user_agent' user_id user_id' request request'
        drawn drawn' db {r = r} {r' = r'} {alone = alone} {between = between} ids hashes other h1
        h1' in
    (
      db',
      ap (λ m. m >>= (λ found. rotate auth token found.0 found.1 user_agent request drawn between))
            checked
          ∙ done,
      live,
      live',
    )
