-- ===== src/Quota/Overrides/Effect.antt =====
-- What an administrator's change of the limits in app/routers/quotas.py comes to.
use phantom_share.Prelude.{
  ℕ, ◌&&◌, true, false, ◌≡◌, refl, ap, sym, ◌∙◌, Option, some, List, [], ◌∷◌, ◌==◌, ==-self,
  Bool-cases, inl, inr, arith,
}
use phantom_share.Result.{http, Result, ok, err, ok-injective}
use phantom_share.Sql.{select_one, insert, update, exists}
use phantom_share.Sql.Laws.{select_one-insert_new}
use phantom_share.Schema.{Db, QuotaRow, user_is}
use phantom_share.Permissions.{CurrentUser}
use phantom_share.Versions.Inserts.{Request}
use phantom_share.Audit.{
  Entry, log, insert_entry, is_address, is_known_user, is_known_secret, log_warning,
}
use phantom_share.Quota.{
  UsageReport, or_default, quota_is, limits_of, limits_for_user, report, reconcile_user, usage,
}
use phantom_share.Quota.Scripts.{Limits, Redis}
use phantom_share.Quota.Overrides.{
  QuotaUpdate, Books, quota_row, set_limits, upsert_quota, quota_entry, noted, update_quota,
}

-- The limits of the user after the upsert, and the row of anyone else.
updated :
    (user : ℕ) (body : QuotaUpdate) (quotas : List QuotaRow) (defaults : Limits)
    → exists (quota_is user) quotas ≡ true
    → limits_of
        (select_one (quota_is user) (update (quota_is user) (set_limits body) quotas))
        defaults
      ≡ limits_of (some (quota_row user body)) defaults
unfolding exists select_one update
updated user body [] defaults h = cc
updated user body (q ∷ quotas) defaults h = ground (arith, updated user body quotas defaults)

updated_others :
    (user other : ℕ) (body : QuotaUpdate) (quotas : List QuotaRow)
    → (other == user) ≡ false
    → select_one (quota_is other) (update (quota_is user) (set_limits body) quotas)
      ≡ select_one (quota_is other) quotas
unfolding select_one update
updated_others user other body [] ne = refl
updated_others user other body (q ∷ quotas) ne =
    ground (arith, updated_others user other body quotas ne)

inserted_others :
    (user other : ℕ) (body : QuotaUpdate) (quotas : List QuotaRow)
    → (other == user) ≡ false
    → select_one (quota_is other) (insert (quota_row user body) quotas)
      ≡ select_one (quota_is other) quotas
unfolding select_one insert
inserted_others user other body [] ne = ground arith
inserted_others user other body (q ∷ quotas) ne =
    ground (arith, inserted_others user other body quotas ne)

upsert_quota-limits :
    (user : ℕ) (body : QuotaUpdate) (quotas : List QuotaRow) (defaults : Limits)
    → limits_of (select_one (quota_is user) (upsert_quota user body quotas)) defaults
      ≡ limits_of (some (quota_row user body)) defaults
unfolding upsert_quota
upsert_quota-limits user body quotas defaults = elim (Bool-cases (exists (quota_is user) quotas)) [
  | inl there ↦ rw there (updated user body quotas defaults there)
  | inr fresh ↦ rw fresh (
      ap (λ o. limits_of o defaults)
        (select_one-insert_new (quota_is user) (quota_row user body) quotas fresh (==-self user)))
]

upsert_quota-others :
    (user other : ℕ) (body : QuotaUpdate) (quotas : List QuotaRow)
    → (other == user) ≡ false
    → select_one (quota_is other) (upsert_quota user body quotas)
      ≡ select_one (quota_is other) quotas
unfolding upsert_quota
upsert_quota-others user other body quotas ne = elim (Bool-cases (exists (quota_is user) quotas)) [
  | inl there ↦ rw there (updated_others user other body quotas ne)
  | inr fresh ↦ rw fresh (inserted_others user other body quotas ne)
]

log-quotas : (e : Entry) (now : ℕ) (db : Db) → (log_warning e now db).quotas ≡ db.quotas
unfolding log_warning log insert_entry
log-quotas e now db =
    elim (Bool-cases (
      is_address e.actor_ip db
      && (is_known_user e.actor_id db && is_known_secret e.secret_id db))) [
        | inl known ↦ rw known
        | inr unknown ↦ rw unknown
      ]

noted-report :
    (user : ℕ) (who : CurrentUser) (request : Request) (db : Db) (limits : Limits)
    (total : Result (ℕ × ℕ)) (redis : Option Redis) {r : UsageReport} {after : Books}
    → noted user who request db (report limits total, redis) ≡ (ok r, after)
    → (after.db.quotas ≡ db.quotas)
      × ((record { secret_limit = r.max_active_secrets; byte_limit = r.max_file_bytes }) ≡ limits)
noted-report user who request db limits (err e) redis {r} {after} h =
    let refused : err e ≡ ok r = ap (λ p. p.0) h in cc
noted-report user who request db limits (ok (secrets, bytes)) redis {r} {after} h = (
  ap (λ p. p.1.db.quotas) (sym h)
      ∙ log-quotas
          (quota_entry user
            (record {
              active_secrets = secrets;
              file_bytes = bytes;
              max_active_secrets = limits.secret_limit;
              max_file_bytes = limits.byte_limit;
            })
            who request.client_ip)
          request.now db,
  ap (λ u. record { secret_limit = u.max_active_secrets; byte_limit = u.max_file_bytes })
      (ok-injective (ap (λ p. p.0) (sym h))),
)

-- A route that returned was past the look-up of the user, and its report stands on the new limits.
update_quota-report :
    (defaults : Limits) (user : ℕ) (body : QuotaUpdate) (who : CurrentUser) (request : Request)
    (books : Books) {r : UsageReport} {after : Books}
    → update_quota defaults user body who request books ≡ (ok r, after)
    → (after.db.quotas ≡ upsert_quota user body books.db.quotas)
      × ((record { secret_limit = r.max_active_secrets; byte_limit = r.max_file_bytes })
          ≡ limits_of
              (select_one (quota_is user) (upsert_quota user body books.db.quotas))
              defaults)
unfolding update_quota usage limits_for_user
update_quota-report defaults user body who request books {r} {after} h =
    let db = record books.db { quotas = upsert_quota user body books.db.quotas } in
    elim (Bool-cases (exists (user_is user) books.db.users)) [
      | inl known ↦
          noted-report user who request db (limits_for_user defaults user db)
            (reconcile_user user db books.redis).0 (reconcile_user user db books.redis).1
            (rw known at h)
      | inr unknown ↦
          let refused : err (http 404 "User not found") ≡ ok r = ap (λ p. p.0) (rw unknown at h) in
          cc
    ]

-- Where an administrator's change of the limits of a user is answered, the limits of that user are
-- from then on what was set, the defaults where nothing was, and the answer reports them; the limits
-- of any other user are as before.
pub update_quota-limits :
    (defaults : Limits) (user other : ℕ) (body : QuotaUpdate) (who : CurrentUser)
    (request : Request) (books : Books) {report : UsageReport} {after : Books}
    → (other == user) ≡ false
    → update_quota defaults user body who request books ≡ (ok report, after)
    → (limits_for_user defaults user after.db ≡ limits_of (some (quota_row user body)) defaults)
      × (report.max_active_secrets ≡ or_default body.max_active_secrets defaults.secret_limit)
      × (report.max_file_bytes ≡ or_default body.max_file_bytes defaults.byte_limit)
      × (limits_for_user defaults other after.db ≡ limits_for_user defaults other books.db)
unfolding update_quota limits_for_user
update_quota-limits defaults user other body who request books {report} {after} ne h =
    let (quotas, reported) = update_quota-report defaults user body who request books h in
    let limits = upsert_quota-limits user body books.db.quotas defaults in
    let shown = reported ∙ limits in
    (
      ap (λ rows. limits_of (select_one (quota_is user) rows) defaults) quotas ∙ limits,
      ap (λ l. l.secret_limit) shown,
      ap (λ l. l.byte_limit) shown,
      ap (λ rows. limits_of (select_one (quota_is other) rows) defaults) quotas
          ∙ ap (λ o. limits_of o defaults) (upsert_quota-others user other body books.db.quotas ne),
    )
