-- ===== src/Quota/Overrides.antt =====
-- app/routers/quotas.py: the usage that a user reads, and the limits that an administrator sets. The
-- column `updated_at` of the limits is left out.
pub mod Effect
use phantom_share.Prelude.{
  ℕ, String, ◌&&◌, true, false, ◌≡◌, refl, ap, sym, ◌∙◌, Option, none, some, List, [], ◌∷◌, ◌==◌,
  ==-self, Bool-cases, inl, inr, if◌then◌else◌, arith,
}
use phantom_share.Result.{http, Result, ok, err, ok-injective}
use phantom_share.Sql.{select_one, insert, update, exists}
use phantom_share.Sql.Laws.{select_one-insert_new}
use phantom_share.Schema.{Db, QuotaRow, num, counts, user_is}
use phantom_share.Permissions.{CurrentUser}
use phantom_share.Versions.Inserts.{Request}
use phantom_share.Audit.{Entry, log, insert_entry, is_known_user, is_known_secret, log_warning}
use phantom_share.Quota.{
  UsageReport, or_default, quota_is, limits_of, limits_for_user, report, reconcile_user, usage,
}
use phantom_share.Quota.Scripts.{Limits, Redis}

pub record QuotaUpdate : Type 0 where
  pub max_active_secrets : Option ℕ
  pub max_file_bytes : Option ℕ

-- `get_quota`
unfoldable pub get_quota :
    Limits → CurrentUser → Db → Option Redis → Result UsageReport × Option Redis
unfolding usage
get_quota defaults who db redis = usage defaults who.id db redis

-- INSERT … ON CONFLICT (user_id) DO UPDATE
abbrev quota_row : ℕ → QuotaUpdate → QuotaRow
quota_row user body = record {
  user_id = user;
  max_active_secrets = body.max_active_secrets;
  max_file_bytes = body.max_file_bytes;
}

abbrev set_limits : QuotaUpdate → QuotaRow → QuotaRow
set_limits body q = record q {
  max_active_secrets = body.max_active_secrets;
  max_file_bytes = body.max_file_bytes;
}

unfoldable pub upsert_quota : ℕ → QuotaUpdate → List QuotaRow → List QuotaRow
upsert_quota user body quotas =
    if exists (quota_is user) quotas
    then update (quota_is user) (set_limits body) quotas
    else insert (quota_row user body) quotas

abbrev quota_entry : ℕ → UsageReport → CurrentUser → String → Entry
quota_entry user report who client_ip = record {
  action = "admin_quota_update";
  actor_id = some who.id;
  actor_ip = some client_ip;
  secret_id = none;
  metadata =
      ("target_user_id", num user)
      ∷ (
        "quota",
        counts (
            ("active_secrets", report.active_secrets)
            ∷ ("file_bytes", report.file_bytes)
            ∷ ("max_active_secrets", report.max_active_secrets)
            ∷ ("max_file_bytes", report.max_file_bytes)
            ∷ []),
      )
      ∷ [];
}

-- The tables and Redis, which the route writes one after the other.
pub record Books : Type 0 where
  pub db : Db
  pub redis : Option Redis

abbrev noted :
    ℕ → CurrentUser → Request → Db → Result UsageReport × Option Redis → Result UsageReport × Books
noted user who request db (err e, redis) = (err e, record { db = db; redis = redis })
noted user who request db (ok report, redis) = (
  ok report,
  record {
    db = log_warning (quota_entry user report who request.client_ip) request.now db;
    redis = redis;
  },
)

-- `update_quota`. The new limits are committed before the usage is read.
unfoldable pub update_quota :
    Limits → ℕ → QuotaUpdate → CurrentUser → Request → Books → Result UsageReport × Books
unfolding upsert_quota usage log_warning
update_quota defaults user body who request books =
    if exists (user_is user) books.db.users
    then (let db = record books.db { quotas = upsert_quota user body books.db.quotas } in
        noted user who request db (usage defaults user db books.redis))
    else (err (http 404 "User not found"), books)
