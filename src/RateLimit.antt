-- ===== src/RateLimit.antt =====
-- app/core/rate_limit.py: the sliding window of requests that a Redis sorted set holds. Scores are
-- microseconds.
pub mod Window
use phantom_share.Prelude.{
  ℕ, ◌+◌, ◌-◌, ◌*◌, ◌/◌, String, Bool, true, false, ◌&&◌, not, Option, none, some, List, [], ◌∷◌,
  leb, ltb, ◌==◌, str_eq, if◌then◌else◌,
}
use phantom_share.Text.{◌++◌ as ◌^◌}
use phantom_share.Result.{Exn, rate_limited, Result, ok, err}
use phantom_share.Sql.{insert, delete, exists, count}

abbrev pub second : ℕ
second = 1000000

-- A member of the sorted set.
pub record Slot : Type 0 where
  pub token : String
  pub score : ℕ

abbrev pub has : String → Slot → Bool
has token s = str_eq s.token token

-- ZREMRANGEBYSCORE key 0 window_start, with window_start = now - window.
abbrev pub is_stale : ℕ → ℕ → Slot → Bool
is_stale window now s = leb (s.score + window) now

abbrev pub any_slot : Slot → Bool
any_slot s = true

-- ZRANGE key 0 0 WITHSCORES: the lowest score.
abbrev pub lower : Slot → Option ℕ → Option ℕ
lower s none = some s.score
lower s (some m) = if leb s.score m then some s.score else some m

unfoldable pub oldest : List Slot → Option ℕ
oldest [] = none
oldest (s ∷ slots) = lower s (oldest slots)

-- ZADD key now token: a member that is there already gets the new score.
abbrev pub zadd : ℕ → String → List Slot → List Slot
zadd now token slots = insert (record { token = token; score = now }) (delete (has token) slots)

pub record Reply : Type 0 where
  pub accepted : Bool
  pub count : ℕ
  pub oldest_ts : Option ℕ

-- `_SLIDING_WINDOW_SCRIPT`. EXPIRE drops the key a window after the last request that was let in,
-- when each of its members is stale.
unfoldable pub sliding_window : ℕ → ℕ → ℕ → String → List Slot → Reply × List Slot
sliding_window now window max_requests token slots =
    let pruned = delete (is_stale window now) slots in
    let n = count any_slot pruned in
    if leb max_requests n
    then (record { accepted = false; count = n; oldest_ts = oldest pruned }, pruned)
    else (record { accepted = true; count = n + 1; oldest_ts = none }, zadd now token pruned)

abbrev pub at_least_1 : ℕ → ℕ
at_least_1 n = if leb n 1 then 1 else n

-- Retry-After in seconds. A timestamp of 0 counts as none.
unfoldable pub retry_after : Option ℕ → ℕ → ℕ → ℕ
retry_after none window_seconds now = window_seconds
retry_after (some oldest_ts) window_seconds now =
    if oldest_ts == 0
    then window_seconds
    else at_least_1 ((oldest_ts + window_seconds * second - now) / second)

-- `rate_limit` on the sorted set of its key; `none` where there is no connection to Redis.
unfoldable pub rate_limit :
    ℕ → ℕ → ℕ → String → Option (List Slot) → Result (Unit {0}) × Option (List Slot)
unfolding sliding_window retry_after
rate_limit max_requests window_seconds now token none = (ok tt, none)
rate_limit max_requests window_seconds now token (some slots) =
    let (reply, after) = sliding_window now (window_seconds * second) max_requests token slots in
    let wait = retry_after reply.oldest_ts window_seconds now in
    if reply.accepted
    then (ok tt, some after)
    else (err (rate_limited wait max_requests (now / second + wait)), some after)

-- `limiter`: the key of a caller, by the user id of the request's state, by the client address of
-- the audit middleware, or by the peer.
abbrev pub peer_of : Option String → String
peer_of (some host) = host
peer_of none = "unknown"

abbrev pub address_of : Option String → Option String → String
address_of (some client_ip) host = if str_eq client_ip "" then peer_of host else client_ip
address_of none host = peer_of host

abbrev pub identifier_of : Option String → Bool → Option String → Option String → String
identifier_of none force_ip client_ip host = "ip:" ^ address_of client_ip host
identifier_of (some user_id) force_ip client_ip host =
    if str_eq user_id ""
    then "ip:" ^ address_of client_ip host
    else if force_ip
    then "ip:" ^ address_of client_ip host
    else "user:" ^ user_id

unfoldable pub limiter_key : String → Bool → Option String → Option String → Option String → String
limiter_key scope force_ip user_id client_ip host =
    let prefix = if str_eq scope "" then "phantom:ratelimit" else "phantom:ratelimit:" ^ scope in
    (prefix ^ ":") ^ identifier_of user_id force_ip client_ip host
