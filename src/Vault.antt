-- ===== src/Vault.antt =====
-- What one text secret is to its users: its texts, oldest first, and the views that it has left. This
-- is the specification of app/routers/secrets.py, secret_versions.py and key_service.py together.
pub mod Reading
pub mod Holds
pub mod Simulation
use phantom_share.Prelude.{
  ℕ, zero, suc, ◌+◌, ◌==◌, ◌≡◌, String, true, Option, none, some, List, [], ◌∷◌, ◌++◌, length,
  if◌then◌else◌,
}
use phantom_share.Result.{Result, ok, err}
use phantom_share.Sql.{exists}
use phantom_share.Schema.{Db, user_is}
use phantom_share.Permissions.{CurrentUser}
use phantom_share.Crypto.{Primitives, Draw}
use phantom_share.Keys.{rotate_key}
use phantom_share.Versions.{update_secret, restore_secret_version}
use phantom_share.Versions.Inserts.{Request, SecretUpdate, SecretUpdateResponse}
use phantom_share.Secrets.Guards.{SecretContent}
use phantom_share.Secrets.Retrieve.{retrieve}
use phantom_share.Secrets.Manage.{delete_owned}

pub record Vault : Type 0 where
  pub texts : List String
  pub views : ℕ

-- The transactions on one secret. A restoration names a version from 1 on, as `suc n`.
pub data Command : Type 0 where
  update : SecretUpdate → Request → CurrentUser → Draw → Command
  restore : ℕ → Request → CurrentUser → Draw → Command
  rotate : Draw → ℕ → Command
  read : Option String → ℕ → Request → Option CurrentUser → Command
  delete : Request → CurrentUser → Command

-- What an answer says about the secret.
pub data Reply : Type 0 where
  written : ℕ → Reply
  rotated deleted : Reply
  shown : String → ℕ → ℕ → Reply

-- The text with that index, the oldest having 0.
abbrev pub nth : ℕ → List String → Option String
nth n [] = none
nth zero (p ∷ texts) = some p
nth (suc n) (p ∷ texts) = nth n texts

-- `none` is a secret that is gone.
abbrev pub after_view : List String → ℕ → Option Vault
after_view texts views = if views == 0 then none else some (record { texts = texts; views = views })

-- What each command does to the vault. The guards decide whether it is let through; a command that is
-- let through answers and acts like this.
pub data Step : Vault → Command → Reply → Option Vault → Type 0 where
  updates :
      (v : Vault) (body : SecretUpdate) (request : Request) (who : CurrentUser) (draw : Draw)
      → body.expected_version ≡ length v.texts
      → Step v
          (update body request who draw)
          (written (length v.texts + 1))
          (some (record v { texts = v.texts ++ body.content ∷ [] }))
  restores :
      (v : Vault) (n : ℕ) (p : String) (request : Request) (who : CurrentUser) (draw : Draw)
      → nth n v.texts ≡ some p
      → Step v
          (restore n request who draw)
          (written (length v.texts + 1))
          (some (record v { texts = v.texts ++ p ∷ [] }))
  rotates : (v : Vault) (draw : Draw) (now : ℕ) → Step v (rotate draw now) rotated (some v)
  reads :
      (v : Vault) (n left : ℕ) (p : String) (password : Option String) (policy_version : ℕ)
      (request : Request) (current_user : Option CurrentUser)
      → length v.texts ≡ suc n
      → nth n v.texts ≡ some p
      → v.views ≡ left + 1
      → Step v
          (read password policy_version request current_user)
          (shown p left (length v.texts))
          (after_view v.texts left)
  deletes :
      (v : Vault) (request : Request) (who : CurrentUser) → Step v (delete request who) deleted none

-- A run of the specification. Nothing happens to a secret that is gone.
pub data Lives : Option Vault → List (Command × Reply) → Option Vault → Type 0 where
  rest : (v : Option Vault) → Lives v [] v
  next :
      {v : Vault} {c : Command} {r : Reply} {v1 v2 : Option Vault} {log : List (Command × Reply)}
      → Step v c r v1
      → Lives v1 log v2
      → Lives (some v) ((c, r) ∷ log) v2

abbrev pub answer {ℓ} : {A : Type ℓ} → (A → Reply) → Result (A × Db) → Result (Reply × Db)
answer f (err e) = err e
answer f (ok (a, db)) = ok (f a, db)

abbrev pub with_reply : Reply → Result Db → Result (Reply × Db)
with_reply r (err e) = err e
with_reply r (ok db) = ok (r, db)

-- The actor of a command that writes an audit entry at its end is in the table of users, and the
-- database takes its address.
abbrev pub IsKnown : Command → Db → Type 0
IsKnown (update body request who draw) db =
    (exists (user_is who.id) db.users ≡ true) × (db.is_inet request.client_ip ≡ true)
IsKnown (restore n request who draw) db =
    (exists (user_is who.id) db.users ≡ true) × (db.is_inet request.client_ip ≡ true)
IsKnown _ db = Unit

module _ (prims : Primitives) (max id : ℕ) where
  unfoldable pub execute : Command → Db → Result (Reply × Db)
  execute (update body request who draw) db =
      answer (λ r. written r.version) (update_secret prims max id body request who draw db)
  execute (restore n request who draw) db =
      answer (λ r. written r.version)
        (restore_secret_version prims max id (suc n) request who draw db)
  execute (rotate draw now) db = answer (λ n. rotated) (rotate_key prims id draw now db)
  execute (read password policy_version request current_user) db =
      answer (λ a. shown a.0.content a.0.views_remaining a.0.version)
        (retrieve prims id password policy_version request current_user db)
  execute (delete request who) db = with_reply deleted (delete_owned id request who db)

  -- A run of the transactions that were let through, with their answers. One that raises is rolled
  -- back and leaves no trace in the run.
  pub data Run : Db → List (Command × Reply) → Db → Type 0 where
    rest : (db : Db) → Run db [] db
    next :
        {db db1 db2 : Db} {c : Command} {r : Reply} {log : List (Command × Reply)}
        → IsKnown c db
        → execute c db ≡ ok (r, db1)
        → Run db1 log db2
        → Run db ((c, r) ∷ log) db2
