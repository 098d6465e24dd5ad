-- ===== src/Quota/Scripts.antt =====
-- The Lua scripts of app/services/quota_service.py on the hashes and the sorted set of Redis. A script
-- is one atomic step.
use phantom_share.Prelude.{
  ℕ, ◌+◌, Bool, false, ◌&&◌, not, Option, none, some, List, [], ◌∷◌, ltb, ◌==◌, if◌then◌else◌,
}
use phantom_share.Result.{Amount}
use phantom_share.Sql.{select_one, insert, update, delete, exists}

abbrev pub second : ℕ
second = 1000000

-- The hash of `_usage_key`.
pub record Usage : Type 0 where
  pub user : ℕ
  pub secrets : Amount
  pub bytes : Amount

-- The hash of `_reservation_key`.
pub record Held : Type 0 where
  pub id : ℕ
  pub user : ℕ
  pub secret_delta : ℕ
  pub byte_delta : ℕ
  pub committed : Bool

-- A member of the sorted set "phantom:quota:reservations", its score in seconds.
pub record Due : Type 0 where
  pub id : ℕ
  pub expires_at : ℕ

pub record Redis : Type 0 where
  pub usages : List Usage
  pub held : List Held
  pub due : List Due

abbrev pub usage_is : ℕ → Usage → Bool
usage_is user u = u.user == user

abbrev pub held_is : ℕ → Held → Bool
held_is id h = h.id == id

abbrev pub due_is : ℕ → Due → Bool
due_is id d = d.id == id

abbrev pub of_nat : ℕ → Amount
of_nat n = record { up = n; down = 0 }

abbrev pub plus : ℕ → Amount → Amount
plus n i = record { up = i.up + n; down = i.down }

abbrev pub minus : ℕ → Amount → Amount
minus n i = record { up = i.up; down = i.down + n }

-- i > n
abbrev pub above : ℕ → Amount → Bool
above n i = ltb (n + i.down) i.up

abbrev pub no_usage : ℕ → Usage
no_usage user = record { user = user; secrets = of_nat 0; bytes = of_nat 0 }

abbrev pub or_no_usage : ℕ → Option Usage → Usage
or_no_usage user none = no_usage user
or_no_usage user (some u) = u

-- HGET, with '0' for a field that is missing.
unfoldable pub balance : ℕ → Redis → Usage
balance user redis = or_no_usage user (select_one (usage_is user) redis.usages)

abbrev pub charged : ℕ → ℕ → Usage → Usage
charged secrets bytes u = record u { secrets = plus secrets u.secrets; bytes = plus bytes u.bytes }

abbrev pub refunded : ℕ → ℕ → Usage → Usage
refunded secrets bytes u = record u {
  secrets = minus secrets u.secrets;
  bytes = minus bytes u.bytes;
}

-- HSET of both fields where the key is missing.
unfoldable pub opened : ℕ → ℕ → ℕ → Redis → Redis
opened user secrets bytes redis =
    if exists (usage_is user) redis.usages then redis else record redis {
      usages =
          insert (record { user = user; secrets = of_nat secrets; bytes = of_nat bytes })
            redis.usages;
    }

pub record Limits : Type 0 where
  pub secret_limit : ℕ
  pub byte_limit : ℕ

pub data Verdict : Type 0 where
  granted : Verdict
  secrets_exceeded bytes_exceeded : Usage → Verdict

-- ZADD: a member that is there already gets the new score.
abbrev pub zadd : ℕ → ℕ → List Due → List Due
zadd id expires_at due =
    insert (record { id = id; expires_at = expires_at }) (delete (due_is id) due)

-- HINCRBY makes a key that is missing.
abbrev pub touched : ℕ → List Usage → List Usage
touched user usages =
    if exists (usage_is user) usages then usages else insert (no_usage user) usages

-- The part of `_RESERVE` that writes.
unfoldable pub charge : ℕ → ℕ → ℕ → ℕ → ℕ → Redis → Redis
charge user id secrets bytes expires_at redis = record {
  usages = update (usage_is user) (charged secrets bytes) (touched user redis.usages);
  held =
      insert
        (record {
          id = id;
          user = user;
          secret_delta = secrets;
          byte_delta = bytes;
          committed = false;
        })
        (delete (held_is id) redis.held);
  due = zadd id expires_at redis.due;
}

-- `_RESERVE`
unfoldable pub reserve_script : ℕ → ℕ → ℕ → ℕ → Limits → ℕ → ℕ × ℕ → Redis → Verdict × Redis
unfolding opened balance charge
reserve_script user id secrets bytes limits expires_at durable redis =
    let redis1 = opened user durable.0 durable.1 redis in
    let now = balance user redis1 in
    if above limits.secret_limit (plus secrets now.secrets)
    then (secrets_exceeded now, redis1)
    else if above limits.byte_limit (plus bytes now.bytes)
    then (bytes_exceeded now, redis1)
    else (granted, charge user id secrets bytes expires_at redis1)

-- HINCRBY by a negative number: a missing key starts from 0.
abbrev pub refund : ℕ → ℕ → ℕ → List Usage → List Usage
refund user secrets bytes usages =
    if exists (usage_is user) usages
    then update (usage_is user) (refunded secrets bytes) usages
    else insert (refunded secrets bytes (no_usage user)) usages

abbrev pub drop : ℕ → List Usage → Redis → Redis
drop id usages redis = record {
  usages = usages;
  held = delete (held_is id) redis.held;
  due = delete (due_is id) redis.due;
}

-- `_RELEASE`
abbrev pub release_held : ℕ → ℕ → Option Held → Redis → Redis
release_held user id none redis = redis
release_held user id (some h) redis =
    drop id
      (if h.committed then redis.usages else refund user h.secret_delta h.byte_delta redis.usages)
      redis

unfoldable pub release_script : ℕ → ℕ → Redis → Redis
release_script user id redis = release_held user id (select_one (held_is id) redis.held) redis

-- `_COMMIT`
unfoldable pub commit_script : ℕ → Redis → Redis
commit_script id redis =
    if exists (held_is id) redis.held then drop id redis.usages redis else redis

-- `_RECONCILE`, over the reservations of the sorted set in order.
abbrev pub outstanding : ℕ → Option Held → ℕ × ℕ
outstanding user none = (0, 0)
outstanding user (some h) =
    if h.user == user && not h.committed then (h.secret_delta, h.byte_delta) else (0, 0)

unfoldable pub add_outstanding : ℕ → List Held → List Due → ℕ × ℕ → ℕ × ℕ
add_outstanding user held [] acc = acc
add_outstanding user held (d ∷ due) acc =
    let (s, b) = outstanding user (select_one (held_is d.id) held) in
    add_outstanding user held due (acc.0 + s, acc.1 + b)

abbrev pub settle : ℕ → ℕ → Usage → Usage
settle secrets bytes u = record u { secrets = of_nat secrets; bytes = of_nat bytes }

unfoldable pub reconcile_script : ℕ → ℕ × ℕ → Redis → (ℕ × ℕ) × Redis
unfolding opened add_outstanding
reconcile_script user durable redis =
    let total = add_outstanding user redis.held redis.due durable in
    let redis1 = opened user total.0 total.1 redis in
    (
      total,
      record redis1 { usages = update (usage_is user) (settle total.0 total.1) redis1.usages },
    )
