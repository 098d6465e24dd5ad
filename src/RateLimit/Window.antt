-- ===== src/RateLimit/Window.antt =====
-- What the sliding window promises: how many requests it lets in, and when it lets in the next.
use phantom_share.Prelude.{
  ℕ, ◌+◌, ◌*◌, ◌/◌, ◌<◌, ◌≢◌, ◌≤◌, ◌≡◌, refl, sym, String, Bool, true, false, some, List, [], ◌∷◌,
  leb, arith, Bool-cases, Option-cases, inl, inr, if◌then◌else◌,
}
use phantom_share.Result.{ok, err, rate_limited}
use phantom_share.Sql.{insert, delete, exists, count}
use phantom_share.RateLimit.{
  Slot, has, is_stale, any_slot, zadd, oldest, sliding_window, retry_after, second, rate_limit,
}

-- The numbers of a list of instants, or of slots, that are less than a window before `t`.
unfoldable pub recent : ℕ → ℕ → List ℕ → ℕ
recent window t [] = 0
recent window t (s ∷ log) = (if leb (s + window) t then 0 else 1) + recent window t log

unfoldable pub live : ℕ → ℕ → List Slot → ℕ
live window t [] = 0
live window t (s ∷ slots) = (if is_stale window t s then 0 else 1) + live window t slots

-- What is left after pruning is what is live, and pruning takes nothing that is live later.
count-pruned :
    (window t : ℕ) (slots : List Slot)
    → count any_slot (delete (is_stale window t) slots) ≡ live window t slots
unfolding count delete live
count-pruned window t [] = refl
count-pruned window t (s ∷ slots) = ground (arith, count-pruned window t slots)

live-pruned :
    (window t u : ℕ) (slots : List Slot)
    → t ≤ u
    → live window u (delete (is_stale window t) slots) ≡ live window u slots
unfolding delete live
live-pruned window t u [] h = refl
live-pruned window t u (s ∷ slots) h = ground (arith, live-pruned window t u slots)

fresh-pruned :
    (window t : ℕ) (token : String) (slots : List Slot)
    → exists (has token) slots ≡ false
    → exists (has token) (delete (is_stale window t) slots) ≡ false
unfolding delete exists
fresh-pruned window t token [] h = refl
fresh-pruned window t token (s ∷ slots) h = ground (arith, fresh-pruned window t token slots)

live-zadd :
    (window u now : ℕ) (token : String) (slots : List Slot)
    → exists (has token) slots ≡ false
    → live window u (zadd now token slots)
      ≡ (if leb (now + window) u then 0 else 1) + live window u slots
unfolding delete insert exists live
live-zadd window u now token [] h = refl
live-zadd window u now token (s ∷ slots) h = ground (arith, live-zadd window u now token slots)

recent_mono : (window t u : ℕ) (log : List ℕ) → t ≤ u → recent window u log ≤ recent window t log
unfolding recent
recent_mono window t u [] h = omega arith
recent_mono window t u (s ∷ log) h = ground (arith, recent_mono window t u log h)

-- Runs of requests on one key: the clock does not run back and each token is new.
abbrev pub logged : Bool → ℕ → List ℕ → List ℕ
logged true now log = now ∷ log
logged false now log = log

pub data Run (window max_requests : ℕ) : ℕ → List ℕ → List Slot → Type 0 where
  start : Run window max_requests 0 [] []
  request :
      {t : ℕ} {log : List ℕ} {slots : List Slot} (now : ℕ) (token : String)
      → Run window max_requests t log slots
      → t ≤ now
      → exists (has token) slots ≡ false
      → Run window max_requests now
          (logged (sliding_window now window max_requests token slots).0.accepted now log)
          (sliding_window now window max_requests token slots).1

-- Each request that was let in and is recent holds a slot.
abbrev Held : ℕ → ℕ → ℕ → List ℕ → List Slot → Type 0
Held window max t log slots =
    ((u : ℕ) → t ≤ u → recent window u log ≤ live window u slots)
    × ((u : ℕ) → t ≤ u → recent window u log ≤ max)

add_left : (a b c : ℕ) → b ≤ c → a + b ≤ a + c
add_left a b c h = omega arith

below_limit :
    (window max t now u : ℕ) (log : List ℕ) (slots : List Slot)
    → t ≤ now
    → now ≤ u
    → Held window max t log slots
    → leb max (count any_slot (delete (is_stale window now) slots)) ≡ false
    → (if leb (now + window) u then 0 else 1) + recent window u log ≤ max
below_limit window max t now u log slots le h (held, few) free =
    ground (arith, count-pruned window now slots, held now le, recent_mono window now u log h)

step-Held :
    (window max t now : ℕ) (log : List ℕ) (slots : List Slot) (token : String)
    → t ≤ now
    → exists (has token) slots ≡ false
    → Held window max t log slots
    → Held window max now
        (logged (sliding_window now window max token slots).0.accepted now log)
        (sliding_window now window max token slots).1
unfolding sliding_window recent
step-Held window max t now log slots token le fresh (held, few) =
    elim (Bool-cases (leb max (count any_slot (delete (is_stale window now) slots)))) [
      | inl full ↦ rw full (
        λ u h. rw (live-pruned window now u slots h) (held u (omega arith)),
        λ u h. few u (omega arith),
      )
      | inr free ↦ rw free (
        λ u h.
            rw
              (live-zadd window u now token (delete (is_stale window now) slots)
                (fresh-pruned window now token slots fresh))
              (rw (live-pruned window now u slots h)
                (add_left (if leb (now + window) u then 0 else 1) _ _ (held u (omega arith)))),
        λ u h. below_limit window max t now u log slots le h (held, few) free,
      )
    ]

run-Held :
    {window max t : ℕ} {log : List ℕ} {slots : List Slot}
    → Run window max t log slots
    → Held window max t log slots
unfolding recent
run-Held start = (λ u h. omega arith, λ u h. omega arith)
run-Held (request now token run le fresh) = step-Held _ _ _ now _ _ token le fresh (run-Held run)

-- In a run of requests on one key, where the clock does not run back and each token is new, at most
-- `max` of those let in are less than a window old at any instant from the last request on.
pub run-recent :
    {window max t : ℕ} {log : List ℕ} {slots : List Slot}
    → Run window max t log slots
    → (u : ℕ) → t ≤ u
    → recent window u log ≤ max
run-recent run u h = (run-Held run).1 u h

-- The answer to a request on the sorted set, by the slots that are live: it is let in where they are
-- fewer than `max`, and refused with 429 and the wait for the oldest slot otherwise.
rate_limit_lem :
    (max seconds now : ℕ) (token : String) (slots : List Slot)
    → (rate_limit max seconds now token (some slots)).0 ≡ (
        if leb max (live (seconds * second) now slots)
        then err (
            rate_limited
              (retry_after (oldest (delete (is_stale (seconds * second) now) slots)) seconds now)
              max
              (now / second
                + retry_after
                    (oldest (delete (is_stale (seconds * second) now) slots))
                    seconds
                    now))
        else ok tt)
unfolding rate_limit sliding_window
rate_limit_lem max seconds now token slots =
    rw (sym (count-pruned (seconds * second) now slots))
      (elim (Bool-cases
        (leb max (count any_slot (delete (is_stale (seconds * second) now) slots)))) [
          | inl full ↦ rw full
          | inr free ↦ rw free
        ])

live-count : (window u : ℕ) (slots : List Slot) → live window u slots ≤ count any_slot slots
unfolding live count
live-count window u [] = omega arith
live-count window u (s ∷ slots) = ground (arith, live-count window u slots)

-- The oldest slot is stale a window after its score.
oldest-frees :
    (window now u m : ℕ) (slots : List Slot)
    → oldest slots ≡ some m
    → m + window ≤ u
    → live window u slots < count any_slot slots
unfolding oldest live count
oldest-frees window now u m [] e h = cc
oldest-frees window now u m (s ∷ slots) e h = elim (Option-cases (oldest slots)) [
  | inl empty ↦ ground (arith, live-count window u slots)
  | inr (k, found) ↦
      ground (arith, live-count window u slots, oldest-frees window now u k slots found)
]

-- The seconds of Retry-After are at least one, and one more of them is enough: they round down.
retry_after-bounds :
    (seconds now m : ℕ)
    → m ≢ 0
    → (1 ≤ retry_after (some m) seconds now)
      × (m + seconds * second ≤ now + (retry_after (some m) seconds now + 1) * second)
unfolding retry_after
retry_after-bounds seconds now m ne = ground arith

below : {a b c : ℕ} → a < b → b ≤ c → a < c
below h e = omega arith

-- Of at most `max` slots, the oldest with a score other than 0, fewer than `max` are live a second
-- after the time that Retry-After names.
pub retry_after-frees :
    (max seconds now m : ℕ) (slots : List Slot)
    → count any_slot slots ≤ max
    → oldest slots ≡ some m
    → m ≢ 0
    → live (seconds * second) (now + (retry_after (some m) seconds now + 1) * second) slots < max
retry_after-frees max seconds now m slots few e ne =
    below
      (oldest-frees (seconds * second) now (now + (retry_after (some m) seconds now + 1) * second) m
        slots e (retry_after-bounds seconds now m ne).1)
      few
