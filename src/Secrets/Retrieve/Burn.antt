-- ===== src/Secrets/Retrieve/Burn.antt =====
-- Burn after reading: each retrieval that is answered with the content uses up one view, and nothing
-- else does.
use phantom_share.Prelude.{
  ℕ, ◌+◌, ◌-◌, ◌<◌, ◌≡◌, ◌≢◌, refl, sym, ap, ◌∙◌, String, Bool, true, false, Option, none, some,
  leb, arith, Bool-cases, inl, inr,
}
use mathlib.Core.Path.{subst}
use phantom_share.Result.{ok, >>=-eq-ok, raise_if-bind-eq-ok, ok-state, ok-value}
use phantom_share.Sql.{select_one, update}
use phantom_share.Sql.Laws.{
  select_one-update, select_one-delete_self, select_one-delete_ne, select_one-update_self,
  select_one_sound, patch,
}
use phantom_share.Schema.{Db, SecretRow, secret_is, delete_secrets}
use phantom_share.Permissions.{CurrentUser}
use phantom_share.Crypto.{Primitives}
use phantom_share.Audit.{Entry, insert_entry}
use phantom_share.Audit.Laws.{insert_entry_lem}
use phantom_share.Versions.Inserts.{Request}
use phantom_share.Secrets.Retrieve.{serve, retrieve}
use phantom_share.Secrets.Views.{
  reveal, record_view, count_view, counted, delete_if_fully_viewed, view_entry,
}
use phantom_share.Secrets.Guards.{SecretContent, check_view}

-- The views that a secret still has.
abbrev pub left : Option SecretRow → ℕ
left none = 0
left (some r) = r.max_views - r.view_count

unfoldable pub remaining : ℕ → Db → ℕ
remaining id db = left (select_one (secret_is id) db.secrets)

secret_is_ne : (j id : ℕ) → j ≢ id → (r : SecretRow) → secret_is j r ≡ true → secret_is id r ≡ false
secret_is_ne j id ne r e = ground arith

module _ (id : ℕ) (row : SecretRow) (now : ℕ) (db : Db)
    (found : select_one (secret_is id) db.secrets ≡ some row) where
  -- The counted view is one of those that were left, and a secret without any is deleted.
  count_view-remaining :
      row.view_count < row.max_views → remaining id db ≡ remaining id (count_view id row now db) + 1
  unfolding remaining count_view delete_if_fully_viewed delete_secrets
  count_view-remaining h = elim (Bool-cases (leb row.max_views (row.view_count + 1))) [
    | inl last ↦
        rw (found, last)
          (rw
            (select_one-delete_self (secret_is id)
              (update (secret_is id) (counted (row.view_count + 1) true) db.secrets))
            (ground arith))
    | inr more ↦
        rw (found, more)
          (rw
            (select_one-update_self (secret_is id) (counted (row.view_count + 1) false) db.secrets
              (λ r. refl) found)
            (ground arith))
  ]

  patch_ne :
      (j : ℕ)
      → j ≢ id
      → (last : Bool) (o : Option SecretRow) → select_one (secret_is j) db.secrets ≡ o
      → patch (secret_is id) (counted (row.view_count + 1) last) o ≡ o
  patch_ne j ne last none e = refl
  patch_ne j ne last (some r) e =
      rw (secret_is_ne j id ne r (select_one_sound (secret_is j) db.secrets {r = r} e))

  other_row :
      (j : ℕ)
      → j ≢ id
      → (last : Bool)
      → select_one
          (secret_is j)
          (update (secret_is id) (counted (row.view_count + 1) last) db.secrets)
        ≡ select_one (secret_is j) db.secrets
  other_row j ne last =
      rw
        (select_one-update (secret_is j) (secret_is id) (counted (row.view_count + 1) last)
          db.secrets (λ r. refl))
        (patch_ne j ne last (select_one (secret_is j) db.secrets) refl)

  count_view-remaining_ne :
      (j : ℕ) → j ≢ id → remaining j (count_view id row now db) ≡ remaining j db
  unfolding remaining count_view delete_if_fully_viewed delete_secrets
  count_view-remaining_ne j ne = elim (Bool-cases (leb row.max_views (row.view_count + 1))) [
    | inl last ↦ rw last (
        rw
          (select_one-delete_ne (secret_is j) (secret_is id)
            (update (secret_is id) (counted (row.view_count + 1) true) db.secrets)
            (secret_is_ne j id ne))
          (rw (other_row j ne true)))
    | inr more ↦ rw more (rw (other_row j ne false))
  ]

-- Nothing that precedes the UPDATE touches `secrets`.
insert_entry_secrets :
    (severity : String) (e : Entry) (now : ℕ) (db : Db) {db' : Db}
    → insert_entry severity e now db ≡ ok db'
    → db'.secrets ≡ db.secrets
insert_entry_secrets severity e now db {db'} h =
    ap (λ d. d.secrets) (insert_entry_lem severity e now db h)

record_view_secrets :
    (id : ℕ) (u : Option CurrentUser) (v now : ℕ) (db : Db)
    → (record_view id u v now db).secrets ≡ db.secrets
unfolding record_view
record_view_secrets id u v now db = ground arith

pub check_view_sound :
    (prims : Primitives) (id : ℕ) (p : Option String) (v now : ℕ) (u : Option CurrentUser) (db : Db)
    {row : SecretRow}
    → check_view prims id p v now u db ≡ ok row
    → (select_one (secret_is id) db.secrets ≡ some row) × (row.view_count < row.max_views)
unfolding check_view
check_view_sound prims id p v now u db {row} h = ground arith

-- A view of `id` that was left is used, and those of the other secrets stay.
abbrev pub Uses : ℕ → Db → Db → Type 0
Uses id db db' =
    (remaining id db ≡ remaining id db' + 1) × ((j : ℕ) → j ≢ id → remaining j db' ≡ remaining j db)

pub remaining_cong : (j : ℕ) (a b : Db) → a.secrets ≡ b.secrets → remaining j a ≡ remaining j b
unfolding remaining
remaining_cong j a b e = ap (λ rows. left (select_one (secret_is j) rows)) e

count_view-Uses :
    (id : ℕ) (row : SecretRow) (now : ℕ) (db db1 : Db)
    → select_one (secret_is id) db.secrets ≡ some row
    → row.view_count < row.max_views
    → db1.secrets ≡ db.secrets
    → Uses id db (count_view id row now db1)
count_view-Uses id row now db db1 found more same =
    let found1 : select_one (secret_is id) db1.secrets ≡ some row = cc in
    (
      remaining_cong id db db1 (sym same) ∙ count_view-remaining id row now db1 found1 more,
      λ j ne. count_view-remaining_ne id row now db1 found1 j ne ∙ remaining_cong j db1 db same,
    )

one_less : (n max v : ℕ) → n < max → v ≡ max - (n + 1) → v + 1 ≡ max - n
one_less n max v h e = omega arith

views_left : {a b v w : ℕ} → a ≡ b + 1 → v + 1 ≡ w → a ≡ w → v ≡ b
views_left e f g = omega arith

row_left :
    (id : ℕ) (db : Db) (row : SecretRow)
    → select_one (secret_is id) db.secrets ≡ some row
    → remaining id db ≡ row.max_views - row.view_count
unfolding remaining
row_left id db row found = ap left found

serve-Uses :
    (prims : Primitives) (id : ℕ) (row : SecretRow) (request : Request) (u : Option CurrentUser)
    (db : Db) {a : SecretContent × SecretRow} {db' : Db}
    → select_one (secret_is id) db.secrets ≡ some row
    → row.view_count < row.max_views
    → serve prims id row request u db ≡ ok (a, db')
    → Uses id db db' × (a.0.views_remaining + 1 ≡ row.max_views - row.view_count)
unfolding serve
serve-Uses prims id row request u db {a} {db'} found more h =
    let (shown, _, h2) = >>=-eq-ok (reveal prims id row db) _ {b = (a, db')} h in
    let (_, h3) = raise_if-bind-eq-ok _ _ _ {a = (a, db')} h2 in
    let (db1, logged, h4) =
      >>=-eq-ok
        (insert_entry "info" (view_entry id row u request.client_ip) request.now
          (record_view id u row.current_version request.now db))
        _ {b = (a, db')} h3 in
    let same : db1.secrets ≡ db.secrets =
      insert_entry_secrets "info" (view_entry id row u request.client_ip) request.now
        (record_view id u row.current_version request.now db) logged
      ∙ record_view_secrets id u row.current_version request.now db in
    (
      subst (Uses id db) (ok-state h4) (count_view-Uses id row request.now db db1 found more same),
      one_less row.view_count row.max_views _ more
          (sym (ap (λ p. p.0.views_remaining) (ok-value h4))),
    )

-- A retrieval that is answered uses one of the views that the secret had left and none of another
-- secret, and names the number of views that are left after it.
pub retrieve-Uses :
    (prims : Primitives) (id : ℕ) (p : Option String) (v : ℕ) (request : Request)
    (u : Option CurrentUser) (db : Db) {a : SecretContent × SecretRow} {db' : Db}
    → retrieve prims id p v request u db ≡ ok (a, db')
    → Uses id db db' × (a.0.views_remaining ≡ remaining id db')
unfolding retrieve
retrieve-Uses prims id p v request u db {a} {db'} h =
    let (row, checked, h1) =
      >>=-eq-ok (check_view prims id p v request.now u db) _ {b = (a, db')} h in
    let (found, more) = check_view_sound prims id p v request.now u db {row = row} checked in
    let (uses, shown) = serve-Uses prims id row request u db found more h1 in
    (uses, views_left (uses.0) shown (row_left id db row found))
