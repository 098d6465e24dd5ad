-- ===== src/Notifications/Rounds.antt =====
-- What a round of the retries takes off the rounds and the seconds that are left.
use phantom_share.Prelude.{
  Bool-cases, inl, inr, ℕ, zero, suc, ◌+◌, ◌-◌, ◌*◌, ◌≤◌, ◌<◌, ◌≡◌, refl, ap, true, false, Option,
  none, some, List, [], ◌∷◌, ◌++◌, arith, if◌then◌else◌, ltb, ◌==◌, String,
}
use Prim.Native.Nat.{◌^◌}
use phantom_share.Amqp.{Message}
use phantom_share.Notifications.{Kind, email, webhook, routing_key_of}
use phantom_share.Notifications.Messages.{or_zero, max_retries, retry_base_delay}
use phantom_share.Notifications.Lanes.{
  Lane, Lanes, consumed, consume_next, retry_message, retry_lane, lane_of, with_lane, retried,
}
use phantom_share.Notifications.Refinement.{is_failing}

-- The sum of a weight over the messages of a list.
abbrev pub sum_of : (ℕ → ℕ) → List Message → ℕ
sum_of f [] = 0
sum_of f (m ∷ ms) = f (or_zero m.attempt) + sum_of f ms

-- The rounds of the loop that a message with so many attempts can take, and the seconds that they
-- sleep.
abbrev pub rounds_of : ℕ → ℕ
rounds_of attempt = if ltb attempt 3 then 4 - attempt else 1

abbrev pub seconds_of : ℕ → ℕ
seconds_of attempt =
    if attempt == 0 then 7 else if attempt == 1 then 6 else if attempt == 2 then 4 else 0

abbrev pub left : (ℕ → ℕ) → Lane → ℕ
left f l = sum_of f l.waiting + sum_of f l.failed

pub sum_of-append :
    (f : ℕ → ℕ) (ms : List Message) (m : Message)
    → sum_of f (ms ++ m ∷ []) ≡ sum_of f ms + f (or_zero m.attempt)
sum_of-append f [] m = omega arith
sum_of-append f (x ∷ ms) m = omega (arith, sum_of-append f ms m)

left-consumed {ℓ} :
    {A : Type ℓ} (f : ℕ → ℕ) (o : Option A) (m : Message) (ms failed : List Message)
    → left f (consumed o m ms failed).0 ≤ f (or_zero m.attempt) + sum_of f ms + sum_of f failed
left-consumed f none m ms failed = omega (arith, sum_of-append f failed m)
left-consumed f (some a) m ms failed = omega arith

pub left-consume_next {ℓ} :
    {A : Type ℓ} (f : ℕ → ℕ) (g : Message → Option A) (waiting failed : List Message)
    → left f (consume_next g waiting failed).0 ≤ sum_of f waiting + sum_of f failed
left-consume_next f g [] failed = omega arith
left-consume_next f g (m ∷ ms) failed = left-consumed f (g m) m ms failed

powers :
    (attempt : ℕ)
    → ltb max_retries (attempt + 1) ≡ false
    → (rounds_of (attempt + 1) < rounds_of attempt)
      × (retry_base_delay * 2 ^ (attempt + 1 - 1) + seconds_of (attempt + 1) ≤ seconds_of attempt)
powers zero h = (omega arith, omega arith)
powers (suc zero) h = (omega arith, omega arith)
powers (suc (suc zero)) h = (omega arith, omega arith)
powers (suc (suc (suc n))) h = ground arith

rounds_of_pos : (attempt : ℕ) → 0 < rounds_of attempt
rounds_of_pos attempt = ground arith

-- A round takes at least one off the rounds that are left, and the seconds that it sleeps off the
-- seconds that are left, and the loop goes on.
left-retry_message :
    (key : String) (m : Message) (waiting ms : List Message)
    → (let r = retry_message key true (or_zero m.attempt + 1) m waiting ms in
        (left rounds_of r.lane
          < sum_of rounds_of waiting + (rounds_of (or_zero m.attempt) + sum_of rounds_of ms))
        × (r.slept + left seconds_of r.lane
            ≤ sum_of seconds_of waiting + (seconds_of (or_zero m.attempt) + sum_of seconds_of ms))
        × (r.goes_on ≡ true))
left-retry_message key m waiting ms = elim (Bool-cases (ltb max_retries (or_zero m.attempt + 1))) [
  | inl late ↦ rw late (omega (arith, rounds_of_pos (or_zero m.attempt)), omega arith, refl)
  | inr early ↦
      let next = record m { attempt = some (or_zero m.attempt + 1) } in
      let (fewer, shorter) = powers (or_zero m.attempt) early in
      rw early (
        omega (arith, fewer, sum_of-append rounds_of waiting next),
        omega (arith, shorter, sum_of-append seconds_of waiting next),
        refl,
      )
]

time_left_step :
    (clock slept left_now left_before : ℕ)
    → slept + left_now ≤ left_before
    → clock + slept + left_now ≤ clock + left_before
time_left_step clock slept left_now left_before h = omega arith

-- What one round of the loop on the lanes takes off.
abbrev pub Fewer : Kind → Lanes → Lanes → Type 0
Fewer k x y =
    (left rounds_of (lane_of k y) < left rounds_of (lane_of k x))
    × (y.clock + left seconds_of (lane_of k y) ≤ x.clock + left seconds_of (lane_of k x))

abbrev pub Retries : Kind → Lanes → Type 0
Retries k x = (y : Lanes) × (retry_lane k true x ≡ some (true, y)) × Fewer k x y

retry_failed-Fewer :
    (k : Kind) (waiting failed : List Message) (x : Lanes)
    → is_failing failed ≡ true
    → Retries k (with_lane k (record { waiting = waiting; failed = failed }) x)
unfolding retry_lane
retry_failed-Fewer k waiting [] x h = cc
retry_failed-Fewer email waiting (m ∷ ms) x h =
    let key = routing_key_of email in
    let (fewer, shorter, on) = left-retry_message key m waiting ms in
    let y =
      retried email (with_lane email (record { waiting = waiting; failed = m ∷ ms }) x)
        (retry_message key true (or_zero m.attempt + 1) m waiting ms) in
    (y, ap (λ b. some (b, y)) on, (fewer, time_left_step _ _ _ _ shorter))
retry_failed-Fewer webhook waiting (m ∷ ms) x h =
    let key = routing_key_of webhook in
    let (fewer, shorter, on) = left-retry_message key m waiting ms in
    let y =
      retried webhook (with_lane webhook (record { waiting = waiting; failed = m ∷ ms }) x)
        (retry_message key true (or_zero m.attempt + 1) m waiting ms) in
    (y, ap (λ b. some (b, y)) on, (fewer, time_left_step _ _ _ _ shorter))

pub retry_lane-Fewer : (k : Kind) (x : Lanes) → is_failing (lane_of k x).failed ≡ true → Retries k x
retry_lane-Fewer email x h = retry_failed-Fewer email x.emails.waiting x.emails.failed x h
retry_lane-Fewer webhook x h = retry_failed-Fewer webhook x.webhooks.waiting x.webhooks.failed x h
