-- ===== src/Files/Stage.antt =====
-- The steps of an upload: each may raise, and leaves what its `except` block has to undo.
use phantom_share.Prelude.{
  ℕ, String, Bool, true, false, not, ◌||◌, Option, none, some, List, [], ◌∷◌, length, if◌then◌else◌,
  str_eq,
}
use phantom_share.Result.{http, storage_error, database_error, Result, ok, err}
use phantom_share.Sql.{insert, delete, exists}
use phantom_share.Schema.{Db, PendingRow, num, str, user_is}
use phantom_share.Crypto.{Bytes}
use phantom_share.Audit.{Entry, log_warning}
use phantom_share.Quota.{Reservation, reserve, commit, release, reconcile_user}
use phantom_share.Quota.Scripts.{Limits, Redis}
use phantom_share.Versions.Inserts.{Request}
use phantom_share.Files.{Object, object_is}

pub record Stage : Type 0 where
  pub db : Db
  pub redis : Option Redis
  pub objects : List Object
  pub byte_reservation : Option Reservation
  pub object_key : Option String

abbrev pub Try : Type 0 → Type 0
Try A = Stage → Result A × Stage

abbrev pub continue : {A B : Type 0} → (A → Try B) → Result A × Stage → Result B × Stage
continue rest (err e, s) = (err e, s)
continue rest (ok a, s) = rest a s

infixl 5 ◌>>=◌ ◌>>◌
unfoldable pub ◌>>=◌ : {A B : Type 0} → Try A → (A → Try B) → Try B
◌>>=◌ step rest s = continue rest (step s)

abbrev pub ◌>>◌ : {B : Type 0} → Try (Unit {0}) → Try B → Try B
step >> rest = step >>= (λ _. rest)

-- A step that only raises or returns.
abbrev pub lift : {A : Type 0} → Result A → Try A
lift r s = (r, s)

abbrev pub commit_or_keep : {A : Type 0} → Result (A × Db) → Stage → Result A × Stage
commit_or_keep (err e) s = (err e, s)
commit_or_keep (ok (a, db)) s = (ok a, record s { db = db })

-- A transaction.
abbrev pub in_db : {A : Type 0} → (Db → Result (A × Db)) → Try A
in_db transaction s = commit_or_keep (transaction s.db) s

-- The virus scanner, and whether the object storage answers. The scan of `clamav_service` tells
-- whether the file is clean, with the text of the reply.
pub record Outside : Type 0 where
  pub scan : Bytes → Result (Bool × String)
  pub upload_works : Bool
  pub delete_works : Bool
  pub prefix_200 : String → String

abbrev pub malware_entry : Outside → ℕ → String → String → ℕ → Entry
malware_entry outside user client_ip detail size = record {
  action = "malware_detected";
  actor_id = some user;
  actor_ip = some client_ip;
  secret_id = none;
  metadata = ("signature", str (outside.prefix_200 detail)) ∷ ("size", num size) ∷ [];
}

-- A file that is not clean is logged on a connection of its own, and refused.
unfoldable pub refuse_malware : Outside → ℕ → Request → ℕ → Bool × String → Try String
refuse_malware outside user request size (true, detail) s = (ok detail, s)
refuse_malware outside user request size (false, detail) s = (
  err (http 422 "Malware detected"),
  record s {
    db = log_warning (malware_entry outside user request.client_ip detail size) request.now s.db;
  },
)

abbrev pub hold : Result Reservation × Option Redis → Stage → Result Reservation × Stage
hold (err e, redis) s = (err e, record s { redis = redis })
hold (ok r, redis) s = (ok r, record s { redis = redis; byte_reservation = some r })

-- `byte_reservation = await quota_service.reserve(user, file_bytes=size)`
unfoldable pub reserve_bytes : Limits → ℕ → ℕ → ℕ → Request → Try Reservation
reserve_bytes limits user size id request s =
    hold (reserve limits user 0 size id request.now s.db s.redis) s

-- `object_key = …`, and then the INSERT into pending_uploads. Its id and that of its reservation
-- are drawn for it, so the key of the object is the only column that could clash.
unfoldable pub announce : PendingRow → Db → Result (Unit {0} × Db)
announce row db =
    if not (exists (user_is row.user_id) db.users)
      || exists (λ r. str_eq r.object_key row.object_key) db.pending_uploads
    then err database_error
    else ok (tt, record db { pending_uploads = insert row db.pending_uploads })

unfoldable pub name_object : String → Try (Unit {0})
name_object key s = (ok tt, record s { object_key = some key })

-- `storage_service.upload`, with the size that it returns.
unfoldable pub store : Outside → String → Bytes → Try ℕ
store outside key bytes s =
    if outside.upload_works
    then (
      ok (length bytes),
      record s {
        objects = insert (record { key = key; bytes = bytes }) (delete (object_is key) s.objects);
      },
    )
    else (err storage_error, s)

abbrev pub without : Outside → Option String → List Object → List Object
without outside none objects = objects
without outside (some key) objects =
    if outside.delete_works then delete (object_is key) objects else objects

abbrev pub release_held : Option Reservation → Option Redis → Option Redis
release_held none redis = redis
release_held (some r) redis = release r redis

-- The `except` block, for an upload that is not durable: the object is deleted, and the reservations
-- are released.
abbrev pub undo : Outside → Option Reservation → Stage → Stage
undo outside secret_reservation s = record s {
  objects = without outside s.object_key s.objects;
  redis = release_held secret_reservation (release_held s.byte_reservation s.redis);
}

-- The commits of the reservations; where one fails, the counters are reconciled instead.
abbrev pub recount : ℕ → Db → Result (Unit {0}) × Option Redis → Result (Unit {0}) × Option Redis
recount user db (ok u, redis) = (ok u, redis)
recount user db (err e, redis) =
    let (total, redis') = reconcile_user user db redis in
    (elim total [ ok _ ↦ ok tt | err e' ↦ err e' ], redis')

abbrev pub commit_next :
    Option Reservation → Result (Unit {0}) × Option Redis → Result (Unit {0}) × Option Redis
commit_next none done = done
commit_next (some r) (err e, redis) = (err e, redis)
commit_next (some r) (ok u, redis) = commit r redis

abbrev pub answered : {A : Type 0} → A → Stage → Result (Unit {0}) × Option Redis → Result A × Stage
answered a s (ok _, redis) = (ok a, record s { redis = redis })
answered a s (err e, redis) = (err e, record s { redis = redis })

-- The end of an upload whose steps ran as far as `outcome`.
abbrev pub conclude :
    {A : Type 0} → Outside → ℕ → Option Reservation → Result A × Stage → Result A × Stage
conclude outside user secret_reservation (err e, s) = (err e, undo outside secret_reservation s)
conclude outside user secret_reservation (ok a, s) = answered a s (
    recount user s.db
      (commit_next s.byte_reservation (commit_next secret_reservation (ok tt, s.redis))))
