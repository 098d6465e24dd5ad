-- ===== src/Quota/Balance.antt =====
-- What a reservation does to the balance of its user, and what giving it back or committing it does.
use phantom_share.Prelude.{
  ℕ, ◌+◌, ◌≤◌, ◌≡◌, inl, inr, refl, true, false, some, List, [], ◌∷◌, arith, Bool-cases,
  Option-cases, ==-self,
}
use phantom_share.Sql.{select_one, update, delete, exists}
use phantom_share.Sql.Laws.{
  select_one-update_self, select_one-delete_self, select_one-insert_new, exists-select_one,
  select_one-none, exists-delete_self, delete-insert,
}
use phantom_share.Quota.Scripts.{
  Usage, Held, Redis, usage_is, held_is, due_is, balance, charged, refunded, opened, Limits,
  granted, charge, reserve_script, release_script, commit_script, drop, refund,
}

-- Within the limits.
abbrev pub Fits : Limits → Usage → Type 0
Fits limits u =
    (u.secrets.up ≤ limits.secret_limit + u.secrets.down)
    × (u.bytes.up ≤ limits.byte_limit + u.bytes.down)

-- The same integers.
abbrev pub Same : Usage → Usage → Type 0
Same u v =
    (u.secrets.up + v.secrets.down ≡ v.secrets.up + u.secrets.down)
    × (u.bytes.up + v.bytes.down ≡ v.bytes.up + u.bytes.down)

exists-found :
    (user : ℕ) (usages : List Usage)
    → exists (usage_is user) usages ≡ true
    → (u : Usage) × (select_one (usage_is user) usages ≡ some u)
unfolding exists select_one
exists-found user [] h = cc
exists-found user (u ∷ usages) h = elim (Bool-cases (usage_is user u)) [
  | inl same ↦ rw same (u, refl)
  | inr other ↦ rw other (exists-found user usages (rw other at h))
]

-- A charge of a user with an entry raises the balance by what is charged.
charge-balance :
    (user id secrets bytes expires_at : ℕ) (redis : Redis)
    → exists (usage_is user) redis.usages ≡ true
    → balance user (charge user id secrets bytes expires_at redis)
      ≡ charged secrets bytes (balance user redis)
unfolding balance charge
charge-balance user id secrets bytes expires_at redis h =
    let (u, found) = exists-found user redis.usages h in
    rw h (
      rw
        (select_one-update_self (usage_is user) (charged secrets bytes) redis.usages (λ r. refl)
          found)
        (rw found))

opened-exists :
    (user secrets bytes : ℕ) (redis : Redis)
    → exists (usage_is user) (opened user secrets bytes redis).usages ≡ true
unfolding opened
opened-exists user secrets bytes redis = elim (Bool-cases (exists (usage_is user) redis.usages)) [
  | inl there ↦ rw there there
  | inr missing ↦ rw missing (
      exists-select_one (usage_is user) _
        (select_one-insert_new (usage_is user) _ redis.usages missing (==-self user)))
]

-- The decision and its effect, on the balance that the user has or that the tables open.
module _ (user id secrets bytes : ℕ) (limits : Limits) (expires_at : ℕ) (durable : ℕ × ℕ)
    (redis : Redis) where
  abbrev before : Redis
  before = opened user durable.0 durable.1 redis

  -- A reservation is granted exactly when the user's balance, with what is reserved, is within both
  -- limits.
  pub reserve_script_iff :
      (((reserve_script user id secrets bytes limits expires_at durable redis).0 ≡ granted)
        → Fits limits (charged secrets bytes (balance user before)))
      × (Fits limits (charged secrets bytes (balance user before))
          → (reserve_script user id secrets bytes limits expires_at durable redis).0 ≡ granted)
  unfolding reserve_script
  reserve_script_iff = (ground arith, ground arith)

  pub reserve_script-granted :
      (reserve_script user id secrets bytes limits expires_at durable redis).0 ≡ granted
      → (reserve_script user id secrets bytes limits expires_at durable redis).1
        ≡ charge user id secrets bytes expires_at before
  unfolding reserve_script
  reserve_script-granted h = ground arith

  -- A granted reservation leaves the balance of its user within both limits.
  pub reserve_script-Fits :
      (reserve_script user id secrets bytes limits expires_at durable redis).0 ≡ granted
      → Fits limits
          (balance user (reserve_script user id secrets bytes limits expires_at durable redis).1)
  reserve_script-Fits h = rw (reserve_script-granted h) (
      rw
        (charge-balance user id secrets bytes expires_at before
          (opened-exists user durable.0 durable.1 redis))
        (reserve_script_iff.0 h))

-- The second of two releases of one reservation does nothing.
release_script_twice :
    (user id : ℕ) (redis : Redis)
    → release_script user id (release_script user id redis) ≡ release_script user id redis
unfolding release_script
release_script_twice user id redis = elim (Option-cases (select_one (held_is id) redis.held)) [
  | inl gone ↦ rw gone (rw gone)
  | inr (h, found) ↦ rw found (rw (select_one-delete_self (held_is id) redis.held))
]

-- A committed reservation is no longer given back: the release that follows does nothing, and the
-- commit itself leaves every balance.
pub release_script-commit_script :
    (user id : ℕ) (redis : Redis)
    → (release_script user id (commit_script id redis) ≡ commit_script id redis)
      × ((commit_script id redis).usages ≡ redis.usages)
unfolding release_script commit_script
release_script-commit_script user id redis = elim (Bool-cases (exists (held_is id) redis.held)) [
  | inl there ↦ rw there (rw (select_one-delete_self (held_is id) redis.held) (refl, refl))
  | inr gone ↦ rw gone (rw (select_one-none (held_is id) redis.held gone) (refl, refl))
]

abbrev new_held : ℕ → ℕ → ℕ → ℕ → Held
new_held user id secrets bytes = record {
  id = id;
  user = user;
  secret_delta = secrets;
  byte_delta = bytes;
  committed = false;
}

-- The reservation that a charge records is the one that a release finds.
charge-held :
    (user id secrets bytes expires_at : ℕ) (redis : Redis)
    → select_one (held_is id) (charge user id secrets bytes expires_at redis).held
      ≡ some (new_held user id secrets bytes)
unfolding charge
charge-held user id secrets bytes expires_at redis =
    select_one-insert_new (held_is id) (new_held user id secrets bytes)
      (delete (held_is id) redis.held) (exists-delete_self (held_is id) redis.held) (==-self id)

refund-balance :
    (user secrets bytes : ℕ) (usages : List Usage) {u : Usage}
    → select_one (usage_is user) usages ≡ some u
    → select_one (usage_is user) (refund user secrets bytes usages)
      ≡ some (refunded secrets bytes u)
refund-balance user secrets bytes usages {u} found =
    rw (exists-select_one (usage_is user) usages {r = u} found)
      (select_one-update_self (usage_is user) (refunded secrets bytes) usages (λ r. refl) found)

charge-refund :
    (user id secrets bytes expires_at : ℕ) (redis : Redis)
    → exists (usage_is user) redis.usages ≡ true
    → balance user (
        drop id
          (refund user secrets bytes (charge user id secrets bytes expires_at redis).usages)
          (charge user id secrets bytes expires_at redis))
      ≡ refunded secrets bytes (charged secrets bytes (balance user redis))
unfolding balance charge
charge-refund user id secrets bytes expires_at redis there =
    let (u, found) = exists-found user redis.usages there in
    let now : select_one (usage_is user)
          (update (usage_is user) (charged secrets bytes) redis.usages)
        ≡ some (charged secrets bytes u) =
      select_one-update_self (usage_is user) (charged secrets bytes) redis.usages (λ r. refl)
        found in
    rw there (
      rw
        (refund-balance user secrets bytes
          (update (usage_is user) (charged secrets bytes) redis.usages) now)
        (rw found))

Same-refund :
    (secrets bytes : ℕ) (u : Usage) → Same (refunded secrets bytes (charged secrets bytes u)) u
Same-refund secrets bytes u = (omega arith, omega arith)

-- A reservation under a new id that is charged to a user and then released leaves the reservations
-- and their deadlines as they were, and the user's balance at the same two integers.
pub release_script-charge :
    (user id secrets bytes expires_at : ℕ) (redis : Redis)
    → exists (usage_is user) redis.usages ≡ true
    → exists (held_is id) redis.held ≡ false
    → exists (due_is id) redis.due ≡ false
    → (Same
        (balance user (release_script user id (charge user id secrets bytes expires_at redis)))
        (balance user redis))
      × ((release_script user id (charge user id secrets bytes expires_at redis)).held ≡ redis.held)
      × ((release_script user id (charge user id secrets bytes expires_at redis)).due ≡ redis.due)
unfolding release_script charge
release_script-charge user id secrets bytes expires_at redis there fresh undue =
    rw (charge-held user id secrets bytes expires_at redis) (
      rw (charge-refund user id secrets bytes expires_at redis there)
          (Same-refund secrets bytes (balance user redis)),
      delete-insert (held_is id) (new_held user id secrets bytes) redis.held (==-self id) fresh,
      delete-insert (due_is id) _ redis.due (==-self id) undue,
    )
