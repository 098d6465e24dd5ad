-- ===== src/Files/Update.antt =====
-- `update_file_secret` of app/routers/file_versions.py.
use phantom_share.Prelude.{ℕ, ◌+◌, none}
use phantom_share.Result.{Result, ok, err}
use phantom_share.Schema.{Db}
use phantom_share.Permissions.{CurrentUser}
use phantom_share.Versions.Inserts.{Request}
use phantom_share.Files.Revise.{FileUpdate, FileUpdated, check_file_update, revise}
use phantom_share.Files.Upload.{take_in}
use phantom_share.Files.Form.{Uploads, FileDraw}
use phantom_share.Files.Stage.{Stage, Try, ◌>>=◌, ◌>>◌, lift, in_db, conclude}

module _ (up : Uploads) (max_secret_versions : ℕ) where
  -- The `try` block. `meanwhile` is what other requests do to the database between
  -- the upload and the transaction.
  unfoldable pub update_file :
      ℕ → FileUpdate → FileDraw → Request → CurrentUser → (Db → Db) → Try FileUpdated
  unfolding revise take_in
  update_file id body drawn request who meanwhile = do
    stored ←
        take_in up id (body.expected_version + 1) drawn request who.id body.upload body.filename
    λ s. (ok tt, record s { db = meanwhile s.db })
    in_db (revise up.prims id body drawn request who stored)
    lift (ok (record { secret_id = id; version = body.expected_version + 1; size = stored.size }))

  abbrev pub checked :
      ℕ
      → FileUpdate
      → FileDraw
      → Request
      → CurrentUser
      → (Db → Db)
      → Stage
      → Result (Unit {0})
      → Result FileUpdated × Stage
  checked id body drawn request who meanwhile s (err e) = (err e, s)
  checked id body drawn request who meanwhile s (ok _) =
      conclude up.outside who.id none (update_file id body drawn request who meanwhile s)

  -- `update_file_secret`, from a stage that holds nothing yet.
  unfoldable pub update_file_secret :
      ℕ
      → FileUpdate
      → FileDraw
      → Request
      → CurrentUser
      → (Db → Db)
      → Stage
      → Result FileUpdated × Stage
  unfolding check_file_update update_file
  update_file_secret id body drawn request who meanwhile s =
      checked id body drawn request who meanwhile s
        (check_file_update max_secret_versions id body.expected_version who s.db)
