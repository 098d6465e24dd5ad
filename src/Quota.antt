-- ===== src/Quota.antt =====
-- app/services/quota_service.py: what each user holds in Redis, the reservations against it, and the
-- usage in the tables that both stand for. An operation of Redis is one atomic step.
pub mod Balance
pub mod Overrides
pub mod Scripts
use phantom_share.Prelude.{
  ℕ, ◌+◌, ◌/◌, String, Bool, true, false, ◌&&◌, not, Option, none, some, List, [], ◌∷◌, leb, ltb,
  ◌==◌, is_some, if◌then◌else◌,
}
use phantom_share.Result.{Exn, http, runtime_error, quota_exceeded, Amount, Result, ok, err}
use phantom_share.Sql.{select_one, select, insert, update, delete, exists, count, sum}
use phantom_share.Schema.{Db, SecretRow, VersionRow, OutboxRow, QuotaRow}
use phantom_share.Quota.Scripts.{
  second, Usage, Held, Due, Redis, usage_is, held_is, due_is, of_nat, plus, minus, above, no_usage,
  or_no_usage, balance, charged, refunded, opened, Limits, Verdict, zadd, charge, reserve_script,
  refund, drop, release_held, release_script, commit_script, outstanding, add_outstanding, settle,
  reconcile_script, granted, secrets_exceeded, bytes_exceeded,
}

-- `limits_for_user`
abbrev pub or_default : Option ℕ → ℕ → ℕ
or_default none n = n
or_default (some m) n = m

abbrev pub quota_is : ℕ → QuotaRow → Bool
quota_is user q = q.user_id == user

abbrev pub limits_of : Option QuotaRow → Limits → Limits
limits_of none defaults = defaults
limits_of (some q) defaults = record {
  secret_limit = or_default q.max_active_secrets defaults.secret_limit;
  byte_limit = or_default q.max_file_bytes defaults.byte_limit;
}

unfoldable pub limits_for_user : Limits → ℕ → Db → Limits
limits_for_user defaults user db = limits_of (select_one (quota_is user) db.quotas) defaults

-- `durable_usage`
abbrev pub is_user : ℕ → Option ℕ → Bool
is_user user none = false
is_user user (some u) = u == user

abbrev pub owned_by : ℕ → SecretRow → Bool
owned_by user s = is_user user s.owner_id

abbrev pub stored_for : ℕ → List SecretRow → VersionRow → Bool
stored_for user secrets v =
    exists (λ s. s.id == v.secret_id && owned_by user s) secrets && is_some v.object_key

abbrev pub pending_for : ℕ → OutboxRow → Bool
pending_for user o = is_user user o.user_id && not (is_some o.processed_at)

unfoldable pub durable_usage : ℕ → Db → ℕ × ℕ
durable_usage user db = (
  count (owned_by user) db.secrets,
  sum (stored_for user db.secrets) (λ v. v.plaintext_size) db.secret_versions
      + sum (pending_for user) (λ o. o.billed_bytes) db.outbox,
)

pub record Reservation : Type 0 where
  pub id : ℕ
  pub user_id : ℕ
  pub secret_delta : ℕ
  pub byte_delta : ℕ

abbrev pub answer : Reservation → Limits → Verdict × Redis → Result Reservation × Option Redis
answer r limits (granted, redis) = (ok r, some redis)
answer r limits (secrets_exceeded now, redis) = (
  err (
      quota_exceeded "MAX_ACTIVE_SECRETS" now.secrets now.bytes limits.secret_limit
        limits.byte_limit),
  some redis,
)
answer r limits (bytes_exceeded now, redis) = (
  err (
      quota_exceeded "MAX_FILE_STORAGE" now.secrets now.bytes limits.secret_limit
        limits.byte_limit),
  some redis,
)

-- `reserve`, with the id that `uuid4` draws; `none` where there is no connection to Redis.
unfoldable pub reserve :
    Limits → ℕ → ℕ → ℕ → ℕ → ℕ → Db → Option Redis → Result Reservation × Option Redis
unfolding reserve_script limits_for_user durable_usage
reserve defaults user secrets bytes id now db none =
    (err (http 503 "Quota service unavailable"), none)
reserve defaults user secrets bytes id now db (some redis) =
    let limits = limits_for_user defaults user db in
    answer (record { id = id; user_id = user; secret_delta = secrets; byte_delta = bytes }) limits
      (reserve_script user id secrets bytes limits (now / second + 600) (durable_usage user db)
        redis)

unfoldable pub commit : Reservation → Option Redis → Result (Unit {0}) × Option Redis
unfolding commit_script
commit r none = (err runtime_error, none)
commit r (some redis) = (ok tt, some (commit_script r.id redis))

-- `release`, which hides every failure.
unfoldable pub release : Reservation → Option Redis → Option Redis
unfolding release_script
release r none = none
release r (some redis) = some (release_script r.user_id r.id redis)

abbrev pub reap_one : ℕ → Option Held → Redis → ℕ × Redis
reap_one id none redis = (0, record redis { due = delete (due_is id) redis.due })
reap_one id (some h) redis = (1, release_script h.user id redis)

-- `reap_expired_reservations`, over the members that ZRANGEBYSCORE returned.
unfoldable pub reap : List Due → Redis → ℕ × Redis
unfolding release_script
reap [] redis = (0, redis)
reap (d ∷ due) redis =
    let (n, redis1) = reap_one d.id (select_one (held_is d.id) redis.held) redis in
    let (m, redis2) = reap due redis1 in (n + m, redis2)

abbrev pub is_due : ℕ → Due → Bool
is_due now d = leb d.expires_at (now / second)

unfoldable pub reap_expired_reservations : ℕ → Option Redis → Result ℕ × Option Redis
unfolding reap
reap_expired_reservations now none = (err runtime_error, none)
reap_expired_reservations now (some redis) =
    let (n, redis1) = reap (select (is_due now) redis.due) redis in (ok n, some redis1)

pub record UsageReport : Type 0 where
  pub active_secrets : ℕ
  pub file_bytes : ℕ
  pub max_active_secrets : ℕ
  pub max_file_bytes : ℕ

-- `reconcile_user`
unfoldable pub reconcile_user : ℕ → Db → Option Redis → Result (ℕ × ℕ) × Option Redis
unfolding reconcile_script durable_usage
reconcile_user user db none = (err (http 503 "Quota service unavailable"), none)
reconcile_user user db (some redis) =
    let (total, redis1) = reconcile_script user (durable_usage user db) redis in
    (ok total, some redis1)

abbrev pub report : Limits → Result (ℕ × ℕ) → Result UsageReport
report limits (err e) = err e
report limits (ok (secrets, bytes)) = ok (record {
  active_secrets = secrets;
  file_bytes = bytes;
  max_active_secrets = limits.secret_limit;
  max_file_bytes = limits.byte_limit;
})

-- `usage`
unfoldable pub usage : Limits → ℕ → Db → Option Redis → Result UsageReport × Option Redis
unfolding reconcile_user limits_for_user
usage defaults user db redis =
    let (total, redis1) = reconcile_user user db redis in
    (report (limits_for_user defaults user db) total, redis1)
