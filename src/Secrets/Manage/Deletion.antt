-- ===== src/Secrets/Manage/Deletion.antt =====
-- What is left of a secret that its owner has deleted.
use mathlib.Core.Path.{subst}
use phantom_share.Prelude.{
  ℕ, ◌≡◌, ◌≢◌, refl, ap, ◌∙◌, Bool, true, false, none, some, List, [], ◌∷◌, ◌==◌, arith, ◌⊎◌, inl,
  inr, Bool-cases,
}
use phantom_share.Result.{ok, or_raise-bind-eq-ok, >>=-eq-ok, ok-injective}
use phantom_share.Sql.{select_one, delete, exists}
use phantom_share.Sql.Laws.{select_one-delete_self, select_one-delete_ne, exists-select_one}
use phantom_share.Schema.{
  Db, SecretRow, secret_is, key_of, version_of, policy_of, is_gone, delete_secrets,
}
use phantom_share.Permissions.{CurrentUser, require_owns_secret}
use phantom_share.Audit.{insert_entry}
use phantom_share.Audit.Laws.{insert_entry_lem}
use phantom_share.Versions.Inserts.{Request}
use phantom_share.Secrets.Manage.{deleted_entry, delete_owned}

-- The id of a row that is there is among those that the deletion removes.
gone_self :
    (id : ℕ) (rows : List SecretRow)
    → exists (secret_is id) rows ≡ true
    → is_gone (secret_is id) rows id ≡ true
unfolding exists
gone_self id [] h = cc
gone_self id (s ∷ rows) h = ground (arith, gone_self id rows)

gone_other : (id j : ℕ) (rows : List SecretRow) → j ≢ id → is_gone (secret_is id) rows j ≡ false
unfolding exists
gone_other id j [] ne = refl
gone_other id j (s ∷ rows) ne = ground (arith, gone_other id j rows ne)

eq_cases : (a b : ℕ) → (a ≡ b) ⊎ ((a == b) ≡ false)
eq_cases a b = ground arith

-- Rows of a removed id are removed.
cascade_self :
    {A : Type 0} (ref : A → ℕ) (gone : ℕ → Bool) (id : ℕ) (rows : List A)
    → gone id ≡ true
    → exists (λ r. ref r == id) (delete (λ r. gone (ref r)) rows) ≡ false
unfolding exists delete
cascade_self ref gone id [] h = refl
cascade_self ref gone id (x ∷ rows) h = elim (eq_cases (ref x) id) [
  | inl same ↦ rw same (rw h (cascade_self ref gone id rows h))
  | inr other ↦ elim (Bool-cases (gone (ref x))) [
    | inl goes ↦ rw goes (cascade_self ref gone id rows h)
    | inr stays ↦ rw (stays, other) (cascade_self ref gone id rows h)
  ]
]

-- What the deletion of a secret leaves: nothing in the tables that hold its content or say who may
-- read it, the history of its views, and every other secret.
pub record Deleted (id : ℕ) (db db' : Db) : Type 0 where
  pub secret : select_one (secret_is id) db'.secrets ≡ none
  pub keys : exists (key_of id) db'.secret_keys ≡ false
  pub versions : exists (version_of id) db'.secret_versions ≡ false
  pub policies : exists (policy_of id) db'.policies ≡ false
  pub recipients : exists (λ r. r.secret_id == id) db'.recipients ≡ false
  pub history : (db'.tracking ≡ db.tracking) × (db'.views ≡ db.views)
  pub others :
      (j : ℕ) → j ≢ id → select_one (secret_is j) db'.secrets ≡ select_one (secret_is j) db.secrets

delete_secrets-Deleted :
    (id now : ℕ) (db : Db)
    → exists (secret_is id) db.secrets ≡ true
    → Deleted id db (delete_secrets (secret_is id) now db)
unfolding delete_secrets
delete_secrets-Deleted id now db there =
    let gone = gone_self id db.secrets there in
    record {
      secret = select_one-delete_self (secret_is id) db.secrets;
      keys =
          cascade_self (λ r. r.secret_id) (is_gone (secret_is id) db.secrets) id db.secret_keys
            gone;
      versions =
          cascade_self (λ r. r.secret_id) (is_gone (secret_is id) db.secrets) id db.secret_versions
            gone;
      policies =
          cascade_self (λ r. r.secret_id) (is_gone (secret_is id) db.secrets) id db.policies gone;
      recipients =
          cascade_self (λ r. r.secret_id) (is_gone (secret_is id) db.secrets) id db.recipients gone;
      history = (refl, refl);
      others = λ j ne.
          select_one-delete_ne (secret_is j) (secret_is id) db.secrets (λ r e. ground arith);
    }

Deleted-audit :
    (id : ℕ) (db db1 db' : Db)
    → db1 ≡ record db { audit_logs = db1.audit_logs }
    → Deleted id db1 db'
    → Deleted id db db'
Deleted-audit id db db1 db' e d = record {
  secret = d.secret;
  keys = d.keys;
  versions = d.versions;
  policies = d.policies;
  recipients = d.recipients;
  history = (d.history.0 ∙ ap (λ x. x.tracking) e, d.history.1 ∙ ap (λ x. x.views) e);
  others = λ j ne. d.others j ne ∙ ap (λ x. select_one (secret_is j) x.secrets) e;
}

-- A deletion that commits found the secret and passed the check of its owner. It removes the secret with its
-- keys, versions, policy and recipients, and keeps the view history and the other secrets.
pub delete_owned-Deleted :
    (id : ℕ) (request : Request) (who : CurrentUser) (db : Db) {db' : Db}
    → delete_owned id request who db ≡ ok db'
    → (row : SecretRow) × (select_one (secret_is id) db.secrets ≡ some row)
      × (require_owns_secret row.owner_id who ≡ ok tt)
      × Deleted id db db'
unfolding delete_owned
delete_owned-Deleted id request who db {db'} h =
    let (row, found, h1) =
      or_raise-bind-eq-ok (select_one (secret_is id) db.secrets) _ _ {b = db'} h in
    let (_, owns, h2) = >>=-eq-ok (require_owns_secret row.owner_id who) _ {b = db'} h1 in
    let (db1, logged, h3) =
      >>=-eq-ok (insert_entry "critical" (deleted_entry id who request.client_ip) request.now db) _
        {b = db'} h2 in
    let kept =
      insert_entry_lem "critical" (deleted_entry id who request.client_ip) request.now db logged in
    let there : exists (secret_is id) db1.secrets ≡ true =
      ap (λ x. exists (secret_is id) x.secrets) kept
      ∙ exists-select_one (secret_is id) db.secrets {r = row} found in
    (
      row,
      found,
      owns,
      subst (Deleted id db) (ok-injective h3)
          (Deleted-audit id db db1 _ kept (delete_secrets-Deleted id request.now db1 there)),
    )
