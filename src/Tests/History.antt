-- ===== src/Tests/History.antt =====
-- The history of one secret, before and after a view.
use phantom_share.Prelude.{◌≡◌, refl, some, [], ◌∷◌}
use phantom_share.Result.{ok}
use phantom_share.Sql.{exists, select_one}
use phantom_share.Sql.Page.{limit}
use phantom_share.Secrets.Views.{view_row, record_view}
use phantom_share.History.{SecretViewsResponse, view_item, secret_views}
use phantom_share.History.Newest.{secret_views-record_view}
use phantom_share.Tests.Tables.{owner, one_secret}

-- The owner's first page of an empty history.
abbrev empty_page : SecretViewsResponse
empty_page = record { items = []; total = 0; page = 1; page_size = 2; retain_until = 9000000000 }

secret_views-record_view_example :
    (after : SecretViewsResponse) × (secret_views 2 1 2 8 owner
        (record_view 2 (some owner) 1 7 one_secret)
      ≡ ok after)
    × (after.items ≡ view_item (view_row 2 (some owner) 1 7) ∷ limit 1 [])
    × (after.total ≡ 1)
    × (after.retain_until ≡ 9000000000)
unfolding exists select_one secret_views phantom_share.Sql.select phantom_share.Sql.count
secret_views-record_view_example =
    secret_views-record_view 2 1 7 8 1 (some owner) owner one_secret {before = empty_page} refl refl
