-- ===== src/Content/Laws.antt =====
-- The current text is the text of the current version, and what stays in the tables stays readable.
use phantom_share.Prelude.{ℕ, ◌≡◌, String, some}
use phantom_share.Result.{ok, or_raise, >>=-eq-ok, or_raise-eq-ok}
use phantom_share.Sql.{select_one}
use phantom_share.Schema.{Db, KeyRow, VersionRow, key_is, version_is}
use phantom_share.Crypto.{Bytes, Primitives}
use phantom_share.Keys.{get_dek_for_secret}
use phantom_share.Content.{open_current, open_version, IsManaged}

-- For a managed secret, what a reader is shown is the text of the version that the row names.
pub open_current-open_version :
    (prims : Primitives) (id : ℕ) (db : Db) (m : IsManaged id db)
    → open_current prims id db ≡ open_version prims id m.secret.current_version db
unfolding open_current open_version get_dek_for_secret
open_current-open_version prims id db m = rw (
  m.secret_found, m.current_found, m.key_named, m.latest_key, m.key_found, m.same_content,
  m.same_nonce,
)

module _ (prims : Primitives) (id v : ℕ) (db db' : Db) where
  -- A key row that is still found gives the same key.
  get_dek_for_secret_keeps :
      (k : ℕ)
      → ((r : KeyRow)
          → select_one (key_is id k) db.secret_keys ≡ some r
          → select_one (key_is id k) db'.secret_keys ≡ some r)
      → {dek : Bytes} → get_dek_for_secret prims id (some k) db.secret_keys ≡ ok dek
      → get_dek_for_secret prims id (some k) db'.secret_keys ≡ ok dek
  unfolding get_dek_for_secret
  get_dek_for_secret_keeps k keep {dek} h =
      let (row, e, u) =
        >>=-eq-ok (or_raise (select_one (key_is id k) db.secret_keys) _) _ {b = dek} h in
      rw (keep row (or_raise-eq-ok _ _ e)) u

  -- A version whose row and key are still found opens to the same text.
  pub open_version_keeps :
      ((r : VersionRow)
        → select_one (version_is id v) db.secret_versions ≡ some r
        → select_one (version_is id v) db'.secret_versions ≡ some r)
      → ((k : ℕ) (r : KeyRow)
          → select_one (key_is id k) db.secret_keys ≡ some r
          → select_one (key_is id k) db'.secret_keys ≡ some r)
      → {p : String} → open_version prims id v db ≡ ok p
      → open_version prims id v db' ≡ ok p
  unfolding open_version
  open_version_keeps keep_version keep_key {p} h =
      let (row, e, u) =
        >>=-eq-ok (or_raise (select_one (version_is id v) db.secret_versions) _) _ {b = p} h in
      let (k, e2, u2) = >>=-eq-ok (or_raise row.key_version _) _ {b = p} u in
      let (dek, e3, u3) =
        >>=-eq-ok (get_dek_for_secret prims id (some k) db.secret_keys) _ {b = p} u2 in
      rw (keep_version row (or_raise-eq-ok _ _ e)) (
        rw (or_raise-eq-ok row.key_version _ e2)
          (rw (get_dek_for_secret_keeps k (keep_key k) e3) u3))
