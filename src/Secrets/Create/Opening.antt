-- ===== src/Secrets/Create/Opening.antt =====
-- A secret that the server encrypts, just after `create_secret` has written it.
use mathlib.Core.Path.{subst}
use phantom_share.Prelude.{
  ℕ, ◌<◌, ◌≤◌, ◌≡◌, refl, sym, String, true, false, none, some, arith, ==-self,
}
use phantom_share.Result.{ok, >>=-eq-ok, raise_if-bind-eq-ok, ok-state, ok-value}
use phantom_share.Sql.{select_one, insert, exists, max_of}
use phantom_share.Sql.Laws.{select_one-insert_new, select_one-update_self, exists-select_one}
use phantom_share.Sql.Counting.{select_top-insert, max_of-insert, max_of-none, exists-max_of}
use phantom_share.Schema.{Db, SecretRow, secret_is, user_is, key_of, key_is, version_of, version_is}
use phantom_share.Crypto.{Primitives, Draw, encrypt_content}
use phantom_share.Crypto.Laws.{unwrap_dek-wrap_dek, decrypt_content-encrypt_content}
use phantom_share.Audit.Laws.{log_last_keeps}
use phantom_share.Keys.{new_key, version_number, get_dek_for_secret}
use phantom_share.Content.{number, open_current, IsManaged}
use phantom_share.Tokens.{Signing, create_signed_token}
use phantom_share.Versions.Inserts.{Request}
use phantom_share.Secrets.Create.{attach, create}
use phantom_share.Secrets.Rows.{
  Site, SecretCreate, secret_row, insert_secret, insert_body, insert_encrypted, first_version,
  signed,
}

below : {m : ℕ} → m < 1 → m ≤ 1
below h = omega arith

at_most : {m n : ℕ} → m ≡ n → m ≤ n
at_most e = omega arith

module _ (prims : Primitives) (site : Site) (id : ℕ) (body : SecretCreate) (owner_id : ℕ)
    (draw : Draw) (now : ℕ) (token : String) (db : Db) (server : body.client_encrypted ≡ false)
    (fresh : exists (secret_is id) db.secrets ≡ false)
    (no_keys : exists (key_of id) db.secret_keys ≡ false)
    (no_versions : exists (version_of id) db.secret_versions ≡ false) where
  keys_below : max_of (key_of id) version_number db.secret_keys < 1
  keys_below = rw (max_of-none (key_of id) version_number db.secret_keys no_keys) (omega arith)

  versions_below : max_of (version_of id) number db.secret_versions < 1
  versions_below =
      rw (max_of-none (version_of id) number db.secret_versions no_versions) (omega arith)

  abbrev sealed : String × String
  sealed = encrypt_content prims body.content draw.dek draw.nonce

  abbrev new_secret : SecretRow
  new_secret = secret_row prims id sealed.0 (some sealed.1) body owner_id now

  -- The tables that the transaction leaves, its audit entry apart.
  abbrev written : Db
  written = attach prims site id body owner_id draw now token (record db {
    secrets = insert new_secret db.secrets;
    secret_keys = insert (new_key prims id draw 1 none) db.secret_keys;
  })

  written-secret : select_one (secret_is id) written.secrets ≡ some (signed token new_secret)
  unfolding attach secret_row
  written-secret =
      select_one-update_self (secret_is id) (signed token) (insert new_secret db.secrets)
        (λ r. refl) (select_one-insert_new (secret_is id) new_secret db.secrets fresh (==-self id))

  unfoldable written-IsManaged : IsManaged id written
  unfolding attach secret_row
  written-IsManaged = record {
    secret = signed token new_secret;
    secret_found = written-secret;
    current = first_version prims id body owner_id draw now;
    current_found =
        select_one-insert_new (version_is id 1) (first_version prims id body owner_id draw now)
          db.secret_versions
          (exists-max_of (version_of id) (version_is id 1) number 1 db.secret_versions
            (λ r e. ground arith) versions_below)
          (rw (==-self id));
    same_content = rw server;
    same_nonce = rw server;
    key = new_key prims id draw 1 none;
    latest_key =
        select_top-insert (key_of id) version_number (new_key prims id draw 1 none) db.secret_keys
          (==-self id) keys_below;
    key_found =
        select_one-insert_new (key_is id 1) (new_key prims id draw 1 none) db.secret_keys
          (exists-max_of (key_of id) (key_is id 1) version_number 1 db.secret_keys
            (λ r e. ground arith) keys_below)
          (rw (==-self id));
    key_named = rw server;
    last_version = at_most (
        max_of-insert (version_of id) number (first_version prims id body owner_id draw now)
          db.secret_versions (==-self id) (below versions_below));
  }

  written-open_current : open_current prims id written ≡ ok body.content
  unfolding open_current get_dek_for_secret written-IsManaged
  written-open_current =
      rw (written-IsManaged.secret_found, written-IsManaged.latest_key)
        (rw (unwrap_dek-wrap_dek prims draw.dek draw.dek_nonce)
          (decrypt_content-encrypt_content prims body.content draw.dek draw.nonce))

-- An audit entry changes neither.
abbrev pub Opens : Primitives → ℕ → String → Db → Type 0
Opens prims id content db = IsManaged id db × (open_current prims id db ≡ ok content)

Opens-audit :
    (prims : Primitives) (id : ℕ) (content : String) (db db' : Db)
    → db' ≡ record db { audit_logs = db'.audit_logs }
    → Opens prims id content db
    → Opens prims id content db'
unfolding open_current
Opens-audit prims id content db db' e (m, shown) = subst (Opens prims id content) (sym e) (
  record {
    secret = m.secret;
    secret_found = m.secret_found;
    current = m.current;
    current_found = m.current_found;
    same_content = m.same_content;
    same_nonce = m.same_nonce;
    key = m.key;
    latest_key = m.latest_key;
    key_found = m.key_found;
    key_named = m.key_named;
    last_version = m.last_version;
  },
  shown,
)

insert_body_lem :
    (prims : Primitives) (id : ℕ) (body : SecretCreate) (owner_id : ℕ) (draw : Draw) (now : ℕ)
    (db : Db) {db1 : Db}
    → body.client_encrypted ≡ false
    → insert_body prims id body owner_id draw now db ≡ ok db1
    → (exists (secret_is id) db.secrets ≡ false)
      × (exists (user_is owner_id) db.users ≡ true)
      × (db1 ≡ record db {
        secrets =
            insert
              (secret_row prims id
                (encrypt_content prims body.content draw.dek draw.nonce).0
                (some (encrypt_content prims body.content draw.dek draw.nonce).1)
                body
                owner_id
                now)
              db.secrets;
        secret_keys = insert (new_key prims id draw 1 none) db.secret_keys;
      })
unfolding insert_body insert_encrypted insert_secret
insert_body_lem prims id body owner_id draw now db {db1} server h = ground arith

-- Where the creation of a secret that the server encrypts commits, from an address that the database
-- takes and with an id to which no key and no version refers yet, the secret is managed and a reader is
-- shown the text that was posted.
pub create-Opens :
    (prims : Primitives) (signing : Signing) (site : Site) (id : ℕ) (body : SecretCreate)
    (request : Request) (owner_id : ℕ) (draw : Draw) (db : Db) {token : String} {db' : Db}
    → body.client_encrypted ≡ false
    → exists (key_of id) db.secret_keys ≡ false
    → exists (version_of id) db.secret_versions ≡ false
    → db.is_inet request.client_ip ≡ true
    → create prims signing site id body request owner_id draw db ≡ ok (token, db')
    → (token ≡ create_signed_token signing id body.ttl_hours 1 none request.now)
      × Opens prims id body.content db'
unfolding create
create-Opens prims signing site id body request owner_id draw db {token} {db'} server no_keys
      no_versions inet h =
    let (db1, inserted, h1) =
      >>=-eq-ok (insert_body prims id body owner_id draw request.now db) _ {b = (token, db')} h in
    let (fresh, known, same) =
      insert_body_lem prims id body owner_id draw request.now db {db1 = db1} server inserted in
    let (_, h2) = raise_if-bind-eq-ok _ _ _ {a = (token, db')} (rw same at h1) in
    let there = exists-select_one (secret_is id) _ (
      written-secret prims site id body owner_id draw request.now
        (create_signed_token signing id body.ttl_hours 1 none request.now) db server fresh no_keys
        no_versions) in
    (
      sym (ok-value h2),
      Opens-audit prims id body.content _ db'
          (log_last_keeps "info" _ request.now db _ inet known there (ok-state h2))
          (
            written-IsManaged prims site id body owner_id draw request.now _ db server fresh no_keys
                no_versions,
            written-open_current prims site id body owner_id draw request.now _ db server fresh
                no_keys no_versions,
          ),
    )
