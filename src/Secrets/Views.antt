-- ===== src/Secrets/Views.antt =====
-- What a view of `_retrieve_secret` of app/routers/secrets.py reads and writes: the text, the row of
-- the view, its audit entry, and the count with the trigger of the last view.
use phantom_share.Prelude.{
  ℕ, ◌+◌, String, Bool, true, false, Option, none, some, [], ◌∷◌, leb, if◌then◌else◌,
}
use phantom_share.Result.{http, Result, ok, err, ◌>>=◌}
use phantom_share.Sql.{exists, insert, update}
use phantom_share.Schema.{
  Db, SecretRow, ViewRow, num, str, secret_is, tracking_of, key_of, delete_secrets,
}
use phantom_share.Permissions.{CurrentUser}
use phantom_share.Crypto.{Primitives, decrypt_content}
use phantom_share.Audit.{Entry}
use phantom_share.Keys.{get_dek_for_secret}

-- Whatever the decryption raises is answered by 500, an HTTPException apart.
abbrev pub as_500 {ℓ} : {A : Type ℓ} → Result A → Result A
as_500 (ok a) = ok a
as_500 (err (http code text)) = err (http code text)
as_500 (err _) = err (http 500 "Failed to decrypt secret")

abbrev pub text_of : Option String → String
text_of none = ""
text_of (some s) = s

-- The text of a server-encrypted secret, or the ciphertext of any other.
unfoldable pub reveal : Primitives → ℕ → SecretRow → Db → Result (String × Bool)
reveal prims secret_id row db = as_500 (
    if exists (key_of secret_id) db.secret_keys
    then (do
      dek ← get_dek_for_secret prims secret_id none db.secret_keys
      plaintext ← decrypt_content prims row.content row.nonce dek
      ok (plaintext, false))
    else ok (text_of row.content, true))

-- INSERT INTO secret_views … SELECT … FROM secret_tracking; the number of rows is that of the
-- tracking rows, which are keyed by the secret.
abbrev pub view_row : ℕ → Option CurrentUser → ℕ → ℕ → ViewRow
view_row secret_id none version now = record {
  secret_id = secret_id;
  viewer_id = none;
  viewer_email = none;
  email_verified = false;
  viewed_at = now;
  content_version = some version;
}
view_row secret_id (some u) version now = record {
  secret_id = secret_id;
  viewer_id = some u.id;
  viewer_email = some u.email;
  email_verified = u.is_verified;
  viewed_at = now;
  content_version = some version;
}

unfoldable pub record_view : ℕ → Option CurrentUser → ℕ → ℕ → Db → Db
record_view secret_id current_user version now db =
    if exists (tracking_of secret_id) db.tracking
    then record db { views = insert (view_row secret_id current_user version now) db.views }
    else db

abbrev pub id_of : Option CurrentUser → Option ℕ
id_of none = none
id_of (some u) = some u.id

abbrev pub view_entry : ℕ → SecretRow → Option CurrentUser → String → Entry
view_entry secret_id row current_user client_ip = record {
  action = "secret_viewed";
  actor_id = id_of current_user;
  actor_ip = some client_ip;
  secret_id = some secret_id;
  metadata = ("view_count", num (row.view_count + 1)) ∷ ("max_views", num row.max_views) ∷ [];
}

-- The trigger `delete_secret_if_fully_viewed`, after an UPDATE of `view_count`.
unfoldable pub delete_if_fully_viewed : ℕ → ℕ → ℕ → ℕ → Db → Db
delete_if_fully_viewed secret_id view_count max_views now db =
    if leb max_views view_count
    then delete_secrets (secret_is secret_id) now (record db {
      audit_logs =
          insert
            (record {
              action = "secret_deleted";
              actor_id = none;
              actor_ip = none;
              severity = "info";
              secret_id = some secret_id;
              metadata =
                  ("reason", str "max_views_achieved")
                  ∷ ("source", str "postgres_trigger")
                  ∷ ("view_count", num view_count)
                  ∷ ("max_views", num max_views)
                  ∷ [];
              created_at = now;
            })
            db.audit_logs;
    })
    else db

abbrev pub counted : ℕ → Bool → SecretRow → SecretRow
counted n last r = record r { view_count = n; viewed = last }

-- UPDATE secrets SET view_count, viewed WHERE id, with its trigger.
unfoldable pub count_view : ℕ → SecretRow → ℕ → Db → Db
count_view secret_id row now db =
    let n = row.view_count + 1 in
    delete_if_fully_viewed secret_id n row.max_views now (record db {
      secrets = update (secret_is secret_id) (counted n (leb row.max_views n)) db.secrets;
    })
