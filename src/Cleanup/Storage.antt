-- ===== src/Cleanup/Storage.antt =====
-- `process_storage_cleanup` of app/services/cleanup_service.py.
use Prim.Native.Nat.{◌^◌}
use phantom_share.Prelude.{
  ℕ, ◌+◌, ◌*◌, String, Bool, ◌&&◌, Option, none, some, List, [], ◌∷◌, ◌++◌, ◌==◌, leb, take,
  is_some, not, if◌then◌else◌, str_eq,
}
use phantom_share.Sql.{select, update, delete}
use phantom_share.Schema.{Db, OutboxRow, PendingRow}
use phantom_share.Quota.{reconcile_user, release, reap_expired_reservations}
use phantom_share.Quota.Scripts.{Redis}
use phantom_share.Files.{Object, object_is}
use phantom_share.Cleanup.{second}

-- The tables, the counters of Redis (`none` is no connection), and the object storage.
pub record Depot : Type 0 where
  pub db : Db
  pub redis : Option Redis
  pub objects : List Object

abbrev pub is_due : ℕ → OutboxRow → Bool
is_due now o = not (is_some o.processed_at) && leb o.next_attempt_at now

abbrev pub is_expired : ℕ → PendingRow → Bool
is_expired now p = leb p.expires_at now

-- ORDER BY expires_at, as an insertion sort.
unfoldable pub insert_by_expiry : PendingRow → List PendingRow → List PendingRow
insert_by_expiry r [] = r ∷ []
insert_by_expiry r (s ∷ rows) =
    if leb r.expires_at s.expires_at then r ∷ s ∷ rows else s ∷ insert_by_expiry r rows

unfoldable pub order_by_expiry : List PendingRow → List PendingRow
unfolding insert_by_expiry
order_by_expiry [] = []
order_by_expiry (r ∷ rows) = insert_by_expiry r (order_by_expiry rows)

abbrev pub least : ℕ → ℕ → ℕ
least a b = if leb a b then a else b

-- LEAST(3600, POWER(2, LEAST(attempts, 11))), in seconds.
unfoldable pub backoff : ℕ → ℕ
backoff attempts = least 3600 (2 ^ least attempts 11)

abbrev pub key_is : String → OutboxRow → Bool
key_is key o = str_eq o.object_key key

abbrev pub done : ℕ → OutboxRow → OutboxRow
done now o = record o { processed_at = some now }

abbrev pub put_off : ℕ → OutboxRow → OutboxRow
put_off now o = record o {
  attempts = o.attempts + 1;
  next_attempt_at = now + backoff o.attempts * second;
}

abbrev pub user_list : Option ℕ → List ℕ
user_list none = []
user_list (some id) = id ∷ []

-- One object of the outbox; `works` tells which keys the storage deletes. The key identifies the row.
unfoldable pub drop_object : (String → Bool) → ℕ → OutboxRow → Depot → Depot
unfolding backoff
drop_object works now o d =
    if works o.object_key
    then record d {
      objects = delete (object_is o.object_key) d.objects;
      db = record d.db { outbox = update (key_is o.object_key) (done now) d.db.outbox };
    }
    else record d {
      db = record d.db { outbox = update (key_is o.object_key) (put_off now) d.db.outbox };
    }

-- The loop over the outbox: the number of deleted objects, and whose they were.
unfoldable pub drop_objects : (String → Bool) → ℕ → List OutboxRow → Depot → ℕ × List ℕ × Depot
unfolding drop_object
drop_objects works now [] d = (0, [], d)
drop_objects works now (o ∷ rows) d =
    let (n, users, d') = drop_objects works now rows (drop_object works now o d) in
    if works o.object_key then (n + 1, user_list o.user_id ++ users, d') else (n, users, d')

abbrev pub upload_is : ℕ → PendingRow → Bool
upload_is id p = p.id == id

-- One abandoned upload: its object, its row and its reservation.
unfoldable pub drop_pending : (String → Bool) → PendingRow → Depot → Depot
drop_pending works p d =
    if works p.object_key
    then record d {
      objects = delete (object_is p.object_key) d.objects;
      db = record d.db { pending_uploads = delete (upload_is p.id) d.db.pending_uploads };
      redis =
          release
            (record {
              id = p.reservation_id;
              user_id = p.user_id;
              secret_delta = 0;
              byte_delta = 0;
            })
            d.redis;
    }
    else d

unfoldable pub drop_uploads : (String → Bool) → List PendingRow → Depot → ℕ × List ℕ × Depot
unfolding drop_pending
drop_uploads works [] d = (0, [], d)
drop_uploads works (p ∷ rows) d =
    let (n, users, d') = drop_uploads works rows (drop_pending works p d) in
    if works p.object_key then (n + 1, p.user_id ∷ users, d') else (n, users, d')

-- `reconcile_user` for each user, whose failures are passed over; a second run for a user changes
-- nothing that the first has set.
unfoldable pub reconcile_all : List ℕ → Depot → Depot
reconcile_all [] d = d
reconcile_all (u ∷ users) d =
    reconcile_all users (record d { redis = (reconcile_user u d.db d.redis).1 })

abbrev pub reaped : ℕ → Depot → Depot
reaped now d = record d { redis = (reap_expired_reservations now d.redis).1 }

pub record StorageReport : Type 0 where
  pub objects_deleted : ℕ
  pub pending_uploads_deleted : ℕ

-- `process_storage_cleanup`
unfoldable pub process_storage_cleanup : (String → Bool) → ℕ → Depot → StorageReport × Depot
unfolding drop_objects drop_uploads order_by_expiry reconcile_all
process_storage_cleanup works now d =
    let outbox = take 100 (select (is_due now) d.db.outbox) in
    let pending = take 100 (order_by_expiry (select (is_expired now) d.db.pending_uploads)) in
    let (n, owners, d1) = drop_objects works now outbox d in
    let (m, uploaders, d2) = drop_uploads works pending d1 in
    (
      record { objects_deleted = n; pending_uploads_deleted = m },
      reconcile_all (owners ++ uploaders) (reaped now d2),
    )
