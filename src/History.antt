-- ===== src/History.antt =====
-- app/routers/secret_views.py: the history of views that the creator of a secret reads. The rows of a
-- table stand in the order of their serial ids, so a row's id is its position and no field.
pub mod Newest
use phantom_share.Prelude.{
  ℕ, ◌-◌, ◌*◌, String, Bool, ◌&&◌, Option, List, [], ◌∷◌, map, ltb, ◌==◌, if◌then◌else◌,
}
use phantom_share.Result.{http, Result, ok, ◌>>=◌, or_raise}
use phantom_share.Sql.{select_one, select, count}
use phantom_share.Schema.{Db, TrackingRow, ViewRow, view_of}
use phantom_share.Permissions.{CurrentUser}
use phantom_share.Sql.Page.{offset, limit}

pub record SecretViewItem : Type 0 where
  pub viewer_id : Option ℕ
  pub viewer_email : Option String
  pub email_verified : Bool
  pub viewed_at : ℕ
  pub content_version : Option ℕ

pub record SecretViewsResponse : Type 0 where
  pub items : List SecretViewItem
  pub total : ℕ
  pub page : ℕ
  pub page_size : ℕ
  pub retain_until : ℕ

abbrev pub view_item : ViewRow → SecretViewItem
view_item r = record {
  viewer_id = r.viewer_id;
  viewer_email = r.viewer_email;
  email_verified = r.email_verified;
  viewed_at = r.viewed_at;
  content_version = r.content_version;
}

-- The WHERE of the SELECT from secret_tracking.
abbrev pub is_readable : ℕ → ℕ → ℕ → TrackingRow → Bool
is_readable secret_id user now r =
    r.secret_id == secret_id && (r.owner_id == user && ltb now r.retain_until)

-- ORDER BY viewed_at DESC, id DESC
unfoldable pub insert_view : ViewRow → List ViewRow → List ViewRow
insert_view v [] = v ∷ []
insert_view v (r ∷ rows) =
    let rest = insert_view v rows in if ltb r.viewed_at v.viewed_at then v ∷ r ∷ rows else r ∷ rest

unfoldable pub last_viewed_first : List ViewRow → List ViewRow
unfolding insert_view
last_viewed_first [] = []
last_viewed_first (v ∷ rows) = insert_view v (last_viewed_first rows)

-- `secret_views`; the route admits pages from 1 on.
unfoldable pub secret_views : ℕ → ℕ → ℕ → ℕ → CurrentUser → Db → Result SecretViewsResponse
unfolding last_viewed_first offset limit
secret_views secret_id page page_size now who db = do
  tracking ←
      or_raise (select_one (is_readable secret_id who.id now) db.tracking)
        (http 404 "View history not found")
  ok (record {
    items = limit page_size (
        offset ((page - 1) * page_size)
          (map view_item (last_viewed_first (select (view_of secret_id) db.views))));
    total = count (view_of secret_id) db.views;
    page = page;
    page_size = page_size;
    retain_until = tracking.retain_until;
  })
