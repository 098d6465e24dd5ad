-- ===== src/Accounts/Rotation.antt =====
-- A refresh token is good for one refresh.
use phantom_share.Prelude.{
  ℕ, ◌≡◌, ◌≢◌, refl, ap, ◌∙◌, String, false, none, str_eq-ne, Bool-cases, Option-cases, inl, inr,
  arith,
}
use phantom_share.Result.{Result, ok, err, http, >>=-eq-ok, ◌>>=◌}
use phantom_share.Sql.{select_one, exists, delete}
use phantom_share.Sql.Laws.{exists-narrow, exists-delete_self, exists-insert_other, select_one-none}
use phantom_share.Schema.{Db}
use phantom_share.Versions.Inserts.{Request}
use phantom_share.Accounts.{Auth, SessionDraw, kind_is, decode_token, create_refresh_token}
use phantom_share.Accounts.Sessions.{
  TokenResponse, hash_is, refreshable, revoke, new_session, check_refresh, rotate,
  refresh_token_endpoint,
}
use phantom_share.Accounts.Login.{open_session-parts}

-- An answer of 401.
abbrev pub Unauthorized : {A : Type 0} → Result A → Type 0
Unauthorized (ok a) = ⊥
Unauthorized (err (http code text)) = code ≡ 401
Unauthorized (err _) = ⊥

Unauthorized->>= :
    {A B : Type 0} (r : Result A) (f : A → Result B) → Unauthorized r → Unauthorized (r >>= f)
Unauthorized->>= (ok a) f h = absurd h
Unauthorized->>= (err (http code text)) f h = h
Unauthorized->>= (err _) f h = absurd h

module _ (auth : Auth) (token : String) where
  -- A token whose session is not there is refused, whatever it says.
  pub check_refresh-unknown :
      (now : ℕ) (db : Db)
      → exists (hash_is (auth.sha256_hash token)) db.sessions ≡ false
      → Unauthorized (check_refresh auth token now db)
  unfolding check_refresh decode_token
  check_refresh-unknown now db gone =
      let none_found : select_one (refreshable (auth.sha256_hash token) now) db.sessions ≡ none =
        select_one-none (refreshable (auth.sha256_hash token) now) db.sessions (
          exists-narrow (refreshable (auth.sha256_hash token) now)
            (hash_is (auth.sha256_hash token)) db.sessions (λ r e. ground arith) gone) in
      elim (Option-cases (auth.decode token now)) [
        | inl unreadable ↦ rw unreadable refl
        | inr there ↦ rw there.1 (elim (Bool-cases (kind_is "refresh" there.0)) [
          | inl fits ↦ rw (fits, none_found) refl
          | inr other ↦ rw other refl
        ])
      ]

  pub rotate-gone :
      (user_id : ℕ) (role user_agent : String) (request : Request) (drawn : SessionDraw) (db : Db)
      {r : TokenResponse} {db' : Db}
      → auth.sha256_hash r.refresh_token ≢ auth.sha256_hash token
      → rotate auth token user_id role user_agent request drawn db ≡ ok (r, db')
      → exists (hash_is (auth.sha256_hash token)) db'.sessions ≡ false
  unfolding rotate revoke
  rotate-gone user_id role user_agent request drawn db {r} {db'} other h =
      let h0 = auth.sha256_hash token in
      let (answer, fresh, users, sessions) =
        open_session-parts auth "token_refresh" user_id role user_agent request drawn
          (revoke (hash_is h0) db) h in
      let session = new_session auth user_id user_agent drawn request in
      let session_token = (create_refresh_token auth user_id drawn request.now).0 in
      let differs : hash_is h0 session ≡ false =
        str_eq-ne (auth.sha256_hash session_token) h0
          (λ e. other (ap (λ x. auth.sha256_hash x.refresh_token) answer ∙ e)) in
      ap (exists (hash_is h0)) sessions
      ∙ exists-insert_other (hash_is h0) session (delete (hash_is h0) db.sessions) differs
          (exists-delete_self (hash_is h0) db.sessions)

-- A refresh uses its token up: where a request returned new tokens, with nothing in between, the old
-- token is refused by 401 from then on. The hashes of the two refresh tokens differ.
pub refresh_token_endpoint-once :
    (auth : Auth) (token user_agent user_agent' : String) (request request' : Request)
    (drawn drawn' : SessionDraw) (db : Db) {r : TokenResponse} {db' : Db}
    → auth.sha256_hash r.refresh_token ≢ auth.sha256_hash token
    → refresh_token_endpoint auth token user_agent request drawn (λ d. d) db ≡ ok (r, db')
    → Unauthorized (refresh_token_endpoint auth token user_agent' request' drawn' (λ d. d) db')
unfolding refresh_token_endpoint
refresh_token_endpoint-once auth token user_agent user_agent' request request' drawn drawn' db {r}
      {db'} other h =
    let (found, checked, h1) =
      >>=-eq-ok (check_refresh auth token request.now db) _ {b = (r, db')} h in
    Unauthorized->>= (check_refresh auth token request'.now db') _ (
      check_refresh-unknown auth token request'.now db'
        (rotate-gone auth token found.0 found.1 user_agent request drawn db other h1))
