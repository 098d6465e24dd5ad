-- ===== src/History/Newest.antt =====
-- A view that is recorded comes first in the history.
use mathlib.Core.Path.{subst}
use phantom_share.Prelude.{
  ℕ, zero, suc, ◌+◌, ◌-◌, ◌*◌, ◌≡◌, refl, ap, sym, ◌∙◌, Bool, ◌||◌, true, false, Option, some, none,
  List, [], ◌∷◌, ◌++◌, map, ltb, ◌==◌, arith,
}
use phantom_share.Result.{http, ok, or_raise-bind-eq-ok}
use phantom_share.Sql.{select_one, select, count, exists, insert}
use phantom_share.Schema.{Db, TrackingRow, ViewRow, view_of, tracking_of}
use phantom_share.Permissions.{CurrentUser}
use phantom_share.Sql.Page.{offset, limit}
use phantom_share.Secrets.Views.{view_row, record_view}
use phantom_share.History.{
  SecretViewItem, SecretViewsResponse, view_item, is_readable, insert_view, last_viewed_first,
  secret_views,
}

abbrev pub is_later : ℕ → ViewRow → Bool
is_later now r = ltb now r.viewed_at

or_false : (a b : Bool) → a || b ≡ false → (a ≡ false) × (b ≡ false)
or_false a b h = ground arith

insert_view_earlier :
    (r v : ViewRow) (rows : List ViewRow)
    → is_later v.viewed_at r ≡ false
    → insert_view r (v ∷ rows) ≡ v ∷ insert_view r rows
unfolding insert_view
insert_view_earlier r v rows h = rw h

last_viewed_first-append :
    (v : ViewRow) (rows : List ViewRow)
    → exists (is_later v.viewed_at) rows ≡ false
    → last_viewed_first (rows ++ v ∷ []) ≡ v ∷ last_viewed_first rows
unfolding last_viewed_first insert_view exists
last_viewed_first-append v [] h = refl
last_viewed_first-append v (r ∷ rows) h =
    let (now_h, rest_h) =
      or_false (is_later v.viewed_at r) (exists (is_later v.viewed_at) rows) h in
    ap (insert_view r) (last_viewed_first-append v rows rest_h)
    ∙ insert_view_earlier r v (last_viewed_first rows) now_h

select-insert :
    (p : ViewRow → Bool) (v : ViewRow) (rows : List ViewRow)
    → p v ≡ true
    → select p (rows ++ v ∷ []) ≡ select p rows ++ v ∷ []
unfolding select
select-insert p v [] h = rw h
select-insert p v (r ∷ rows) h = ground (arith, select-insert p v rows h)

count-insert :
    (p : ViewRow → Bool) (v : ViewRow) (rows : List ViewRow)
    → p v ≡ true
    → count p (rows ++ v ∷ []) ≡ count p rows + 1
unfolding count
count-insert p v [] h = rw h
count-insert p v (r ∷ rows) h = omega (arith, count-insert p v rows h)

exists-select :
    (p q : ViewRow → Bool) (rows : List ViewRow)
    → exists q rows ≡ false
    → exists q (select p rows) ≡ false
unfolding exists select
exists-select p q [] h = refl
exists-select p q (r ∷ rows) h = ground (arith, exists-select p q rows)

limit_next {ℓ} :
    {A : Type ℓ} (n : ℕ) (x : A) (xs : List A) → limit (suc n) (x ∷ xs) ≡ x ∷ limit n xs
unfolding limit
limit_next n x xs =
    let some_left : (suc n == 0) ≡ false = ground arith in
    let left : suc n - 1 ≡ n = omega arith in rw (some_left, left)

limit-limit {ℓ} : {A : Type ℓ} (n : ℕ) (xs : List A) → limit n (limit (suc n) xs) ≡ limit n xs
unfolding limit
limit-limit n [] = refl
limit-limit zero (x ∷ xs) = ap (limit 0) (limit_next 0 x xs)
limit-limit (suc n) (x ∷ xs) =
    ap (limit (suc n)) (limit_next (suc n) x xs)
    ∙ (limit_next n x (limit (suc n) xs)
        ∙ (ap (λ ys. x ∷ ys) (limit-limit n xs) ∙ sym (limit_next n x xs)))

offset_zero {ℓ} : {A : Type ℓ} (xs : List A) → offset 0 xs ≡ xs
unfolding offset
offset_zero [] = refl
offset_zero (x ∷ xs) = refl

exists-readable :
    (secret_id user now : ℕ) (rows : List TrackingRow) {row : TrackingRow}
    → select_one (is_readable secret_id user now) rows ≡ some row
    → exists (tracking_of secret_id) rows ≡ true
unfolding exists select_one
exists-readable secret_id user now [] h = ground arith
exists-readable secret_id user now (r ∷ rows) {row = row} h =
    ground (arith, exists-readable secret_id user now rows {row = row})

first_page {ℓ} : {A : Type ℓ} (size : ℕ) (xs : List A) → offset ((1 - 1) * size) xs ≡ xs
first_page size xs =
    let none_before : (1 - 1) * size ≡ 0 = omega arith in
    ap (λ k. offset k xs) none_before ∙ offset_zero xs

-- The rows of a page that the SELECT returns for the views of a secret.
abbrev page_of : ℕ → ℕ → List ViewRow → List SecretViewItem
page_of secret_id size views =
    limit size (
      offset ((1 - 1) * size)
        (map view_item (last_viewed_first (select (view_of secret_id) views))))

view_of-view_row :
    (secret_id version now : ℕ) (viewer : Option CurrentUser)
    → view_of secret_id (view_row secret_id viewer version now) ≡ true
view_of-view_row secret_id version now none = ground arith
view_of-view_row secret_id version now (some u) = ground arith

viewed_at-view_row :
    (secret_id version now : ℕ) (viewer : Option CurrentUser)
    → (view_row secret_id viewer version now).viewed_at ≡ now
viewed_at-view_row secret_id version now none = refl
viewed_at-view_row secret_id version now (some u) = refl

page_of-append :
    (secret_id rest : ℕ) (v : ViewRow) (views : List ViewRow)
    → view_of secret_id v ≡ true
    → exists (is_later v.viewed_at) views ≡ false
    → page_of secret_id (suc rest) (views ++ v ∷ [])
      ≡ view_item v ∷ limit rest (page_of secret_id (suc rest) views)
page_of-append secret_id rest v views shown newest =
    let rows = select (view_of secret_id) views in
    let items = map view_item (last_viewed_first rows) in
    let first =
      ap last_viewed_first (select-insert (view_of secret_id) v views shown)
      ∙ last_viewed_first-append v rows
          (exists-select (view_of secret_id) (is_later v.viewed_at) views newest) in
    ap (limit (suc rest)) (
      first_page (suc rest)
        (map view_item (last_viewed_first (select (view_of secret_id) (views ++ v ∷ []))))
      ∙ ap (map view_item) first)
    ∙ (limit_next rest (view_item v) items
        ∙ ap (λ ys. view_item v ∷ ys)
            (sym (limit-limit rest items)
              ∙ ap (λ xs. limit rest (limit (suc rest) xs)) (sym (first_page (suc rest) items))))

-- A view that is recorded comes first in the history that the owner of the secret reads: where the
-- owner may read the history and no view is later than the new one, the first page then starts with
-- the new view, goes on with what it showed before, and counts one view more.
pub secret_views-record_view :
    (secret_id rest now later version : ℕ) (viewer : Option CurrentUser) (who : CurrentUser)
    (db : Db) {before : SecretViewsResponse}
    → exists (is_later now) db.views ≡ false
    → secret_views secret_id 1 (suc rest) later who db ≡ ok before
    → (after : SecretViewsResponse) × (secret_views secret_id 1
          (suc rest)
          later
          who
          (record_view secret_id viewer version now db)
        ≡ ok after)
      × (after.items ≡ view_item (view_row secret_id viewer version now) ∷ limit rest before.items)
      × (after.total ≡ before.total + 1)
      × (after.retain_until ≡ before.retain_until)
unfolding secret_views record_view insert
secret_views-record_view secret_id rest now later version viewer who db {before} newest h =
    let (row, found, h1) =
      or_raise-bind-eq-ok (select_one (is_readable secret_id who.id later) db.tracking)
        (http 404 "View history not found") _ {b = before} h in
    let tracked = exists-readable secret_id who.id later db.tracking found in
    let v = view_row secret_id viewer version now in
    let same : record {
      items = page_of secret_id (suc rest) db.views;
      total = count (view_of secret_id) db.views;
      page = 1;
      page_size = suc rest;
      retain_until = row.retain_until;
    }
        ≡ before =
      cc in
    let mine = view_of-view_row secret_id version now viewer in
    let last = viewed_at-view_row secret_id version now viewer in
    rw (tracked, found)
      (
        _,
        refl,
        page_of-append secret_id rest v db.views mine
              (subst (λ t. exists (is_later t) db.views ≡ false) (sym last) newest)
            ∙ ap (λ b. view_item v ∷ limit rest b.items) same,
        count-insert (view_of secret_id) v db.views mine ∙ ap (λ b. b.total + 1) same,
        ap (λ b. b.retain_until) same,
      )
