-- ===== src/Vault/Reading.antt =====
-- What a reader is shown, and what a view leaves.
use mathlib.Core.Path.{subst}
use phantom_share.Prelude.{
  ℕ, ◌+◌, ◌<◌, ◌≡◌, ◌⊎◌, inl, inr, refl, sym, ap, ◌∙◌, String, Bool, true, false, Option, none,
  some, List, [], ◌∷◌, leb, leb→lt, arith, Bool-cases,
}
use phantom_share.Result.{Result, ok, err, >>=-eq-ok, raise_if-bind-eq-ok, ok-value, ok-state}
use phantom_share.Sql.{select_one, exists, select_top, update}
use phantom_share.Sql.Laws.{select_one-update_self, select_one-delete_self}
use phantom_share.Schema.{Db, SecretRow, KeyRow, secret_is, key_of, tracking_of}
use phantom_share.Permissions.{CurrentUser}
use phantom_share.Crypto.{Primitives, decrypt_content}
use phantom_share.Audit.{Entry, insert_entry}
use phantom_share.Audit.Laws.{insert_entry_lem}
use phantom_share.Keys.{version_number, get_dek_for_secret}
use phantom_share.Content.{open_current, IsManaged}
use phantom_share.Versions.Inserts.{Request}
use phantom_share.Secrets.Guards.{SecretContent, check_view}
use phantom_share.Secrets.Views.{as_500, reveal, record_view, count_view, counted, view_entry}
use phantom_share.Secrets.Retrieve.{serve, retrieve}
use phantom_share.Secrets.Retrieve.Burn.{left, remaining, check_view_sound}

exists-select_top :
    (p : KeyRow → Bool) (rows : List KeyRow) {r : KeyRow}
    → select_top p version_number rows ≡ some r
    → exists p rows ≡ true
unfolding select_top exists
exists-select_top p [] h = cc
exists-select_top p (k ∷ rows) {r} h = elim (Bool-cases (p k)) [
  | inl mine ↦ rw mine refl
  | inr other ↦ rw other (exists-select_top p rows {r = r} (rw other at h))
]

as_500-eq-ok {ℓ} : {A : Type ℓ} (m : Result A) {a : A} → as_500 m ≡ ok a → m ≡ ok a
as_500-eq-ok (ok a) h = h
as_500-eq-ok (err e) h = ground arith

-- The text that a reader of a managed secret is shown is its current text.
reveal-open_current :
    (prims : Primitives) (id : ℕ) (db : Db) (m : IsManaged id db) {text : String} {opaque : Bool}
    → reveal prims id m.secret db ≡ ok (text, opaque)
    → open_current prims id db ≡ ok text
unfolding reveal open_current
reveal-open_current prims id db m {text} {opaque} h =
    let keyed = exists-select_top (key_of id) db.secret_keys {r = m.key} m.latest_key in
    let (dek, got, h1) =
      >>=-eq-ok (get_dek_for_secret prims id none db.secret_keys) _ {b = (text, opaque)}
        (as_500-eq-ok _ (rw keyed at h)) in
    let (p, shown, h2) =
      >>=-eq-ok (decrypt_content prims m.secret.content m.secret.nonce dek) _ {b = (text, opaque)}
        h1 in
    rw m.secret_found (rw (got) (shown ∙ ap ok (ok-value h2)))

-- A view that is not the last leaves the texts, and the last one leaves no secret.
pub record Kept (id : ℕ) (old : SecretRow) (db db' : Db) : Type 0 where
  pub managed : IsManaged id db'
  pub same_version : managed.secret.current_version ≡ old.current_version
  pub keys : db'.secret_keys ≡ db.secret_keys
  pub versions : db'.secret_versions ≡ db.secret_versions

abbrev pub Viewed : ℕ → SecretRow → Db → Db → Type 0
Viewed id old db db' =
    ((remaining id db' ≡ 0) × (select_one (secret_is id) db'.secrets ≡ none))
    ⊎ ((0 < remaining id db') × Kept id old db db')

module _ (id now : ℕ) (db db1 : Db) (m : IsManaged id db) (same_secrets : db1.secrets ≡ db.secrets)
    (same_keys : db1.secret_keys ≡ db.secret_keys)
    (same_versions : db1.secret_versions ≡ db.secret_versions) where
  found : select_one (secret_is id) db1.secrets ≡ some m.secret
  found = ap (λ rows. select_one (secret_is id) rows) same_secrets ∙ m.secret_found

  counted_row :
      select_one
        (secret_is id)
        (update (secret_is id) (counted (m.secret.view_count + 1) false) db1.secrets)
      ≡ some (counted (m.secret.view_count + 1) false m.secret)
  counted_row = select_one-update_self (secret_is id) _ db1.secrets (λ r. refl) found

  kept : Kept id m.secret db (record db1 {
    secrets = update (secret_is id) (counted (m.secret.view_count + 1) false) db1.secrets;
  })
  kept = record {
    managed = record {
      secret = counted (m.secret.view_count + 1) false m.secret;
      secret_found = counted_row;
      current = m.current;
      current_found = rw same_versions m.current_found;
      same_content = m.same_content;
      same_nonce = m.same_nonce;
      key = m.key;
      latest_key = rw same_keys m.latest_key;
      key_found = rw same_keys m.key_found;
      key_named = m.key_named;
      last_version = rw same_versions m.last_version;
    };
    same_version = refl;
    keys = same_keys;
    versions = same_versions;
  }

  count_view-Viewed : Viewed id m.secret db (count_view id m.secret now db1)
  unfolding count_view phantom_share.Secrets.Views.delete_if_fully_viewed
      phantom_share.Schema.delete_secrets remaining
  count_view-Viewed = elim (Bool-cases (leb m.secret.max_views (m.secret.view_count + 1))) [
    | inl last ↦
        let gone = select_one-delete_self (secret_is id) _ in rw last (inl (ap left gone, gone))
    | inr more ↦ rw more (
        inr (
          rw counted_row (omega (arith, leb→lt m.secret.max_views (m.secret.view_count + 1) more)),
          kept,
        ))
  ]

record_view-same :
    (id : ℕ) (u : Option CurrentUser) (v now : ℕ) (db : Db)
    → (let db1 = record_view id u v now db in
        (db1.secrets ≡ db.secrets)
        × (db1.secret_keys ≡ db.secret_keys)
        × (db1.secret_versions ≡ db.secret_versions))
unfolding record_view
record_view-same id u v now db = elim (Bool-cases (exists (tracking_of id) db.tracking)) [
  | inl there ↦ rw there (refl, refl, refl)
  | inr none_there ↦ rw none_there (refl, refl, refl)
]

insert_entry-same :
    (id : ℕ) (u : Option CurrentUser) (v : ℕ) (e : Entry) (now : ℕ) (db : Db) {db1 : Db}
    → insert_entry "info" e now (record_view id u v now db) ≡ ok db1
    → (db1.secrets ≡ db.secrets)
      × (db1.secret_keys ≡ db.secret_keys)
      × (db1.secret_versions ≡ db.secret_versions)
insert_entry-same id u v e now db h =
    let viewed = record_view-same id u v now db in
    let logged = insert_entry_lem "info" e now (record_view id u v now db) h in
    (
      ap (λ d. d.secrets) logged ∙ viewed.0,
      ap (λ d. d.secret_keys) logged ∙ viewed.1,
      ap (λ d. d.secret_versions) logged ∙ viewed.2,
    )

module _ (prims : Primitives) (id : ℕ) (request : Request) (u : Option CurrentUser) (db : Db)
    (m : IsManaged id db) where
  -- The steps of `serve`, apart.
  serve-parts :
      {a : SecretContent × SecretRow} {db' : Db}
      → serve prims id m.secret request u db ≡ ok (a, db')
      → (opaque : Bool) × (db1 : Db) × (reveal prims id m.secret db ≡ ok (a.0.content, opaque))
        × (a.0.version ≡ m.secret.current_version)
        × (insert_entry "info"
              (view_entry id m.secret u request.client_ip)
              request.now
              (record_view id u m.secret.current_version request.now db)
            ≡ ok db1)
        × (count_view id m.secret request.now db1 ≡ db')
  unfolding serve
  serve-parts {a} {db'} h =
      let (shown, revealed, h2) = >>=-eq-ok (reveal prims id m.secret db) _ {b = (a, db')} h in
      let (_, h3) = raise_if-bind-eq-ok _ _ _ {a = (a, db')} h2 in
      let (db1, logged, h4) =
        >>=-eq-ok
          (insert_entry "info" (view_entry id m.secret u request.client_ip) request.now
            (record_view id u m.secret.current_version request.now db))
          _ {b = (a, db')} h3 in
      let answer = ok-value h4 in
      (
        shown.1,
        db1,
        revealed ∙ ap (λ (q : SecretContent × SecretRow). ok (q.0.content, shown.1)) answer,
        ap (λ (q : SecretContent × SecretRow). q.0.version) (sym answer),
        logged,
        ok-state h4,
      )

  serve-Viewed :
      {a : SecretContent × SecretRow} {db' : Db}
      → serve prims id m.secret request u db ≡ ok (a, db')
      → (open_current prims id db ≡ ok a.0.content)
        × (a.0.version ≡ m.secret.current_version)
        × Viewed id m.secret db db'
  serve-Viewed {a} {db'} h =
      let (opaque, db1, revealed, version, logged, counts) = serve-parts {a = a} {db' = db'} h in
      let (secrets, keys, versions) =
        insert_entry-same id u m.secret.current_version _ request.now db {db1 = db1} logged in
      (
        reveal-open_current prims id db m {text = a.0.content} {opaque = opaque} revealed,
        version,
        subst (Viewed id m.secret db) counts
            (count_view-Viewed id request.now db db1 m secrets keys versions),
      )

-- A retrieval of a managed secret that is answered shows its current text and the number of its
-- current version.
pub retrieve-Viewed :
    (prims : Primitives) (id : ℕ) (p : Option String) (v : ℕ) (request : Request)
    (u : Option CurrentUser) (db : Db) (m : IsManaged id db) {a : SecretContent × SecretRow}
    {db' : Db}
    → retrieve prims id p v request u db ≡ ok (a, db')
    → (open_current prims id db ≡ ok a.0.content)
      × (a.0.version ≡ m.secret.current_version)
      × Viewed id m.secret db db'
unfolding retrieve
retrieve-Viewed prims id p v request u db m {a} {db'} h =
    let (row, checked, h1) =
      >>=-eq-ok (check_view prims id p v request.now u db) _ {b = (a, db')} h in
    let (there, more) = check_view_sound prims id p v request.now u db {row = row} checked in
    let same : row ≡ m.secret = cc (m.secret_found, there) in
    serve-Viewed prims id request u db m {a = a} {db' = db'}
      (subst (λ r. serve prims id r request u db ≡ ok (a, db')) same h1)
