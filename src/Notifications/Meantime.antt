-- ===== src/Notifications/Meantime.antt =====
-- What views and deliveries do to the rounds that are left while the loop of the retries sleeps.
use phantom_share.Prelude.{
  ℕ, ◌+◌, ◌*◌, ◌≤◌, ◌≡◌, refl, ◌∙◌, Bool, true, false, Option, none, some, List, [], ◌∷◌, ◌++◌,
  arith, if◌then◌else◌, map,
}
use mathlib.Core.Path.{subst}
use phantom_share.Secrets.Guards.{is_given}
use phantom_share.Amqp.{Message}
use phantom_share.Notifications.{
  Delivery, Kind, email, webhook, mail, post, mail_of, post_of, message_of, View, Meanwhile, told,
  took, event_of, Round,
}
use phantom_share.Notifications.Messages.{
  Json, Smtp, Payload, if_sent, email_payload, webhook_payload, text_or_empty, or_unknown,
}
use phantom_share.Notifications.Lanes.{
  Lanes, consumed, consume_next, lane_of, with_lane, wait, spec_deliver, spec_publish, spec_viewed,
  spec_run, is_told_by_mail,
}
use phantom_share.Notifications.Refinement.{is_failing}
use phantom_share.Notifications.Rounds.{
  rounds_of, seconds_of, left, sum_of-append, left-consume_next,
}

-- What `n` views and any deliveries leave: four more rounds and seven more seconds for each view at
-- most, the same time, and what failed before.
abbrev pub Meantime : Kind → ℕ → Lanes → Lanes → Type 0
Meantime k n x y =
    (left rounds_of (lane_of k y) ≤ left rounds_of (lane_of k x) + 4 * n)
    × (left seconds_of (lane_of k y) ≤ left seconds_of (lane_of k x) + 7 * n)
    × (y.clock ≡ x.clock)
    × (is_failing (lane_of k x).failed ≡ true → is_failing (lane_of k y).failed ≡ true)

Meantime-same : (k : Kind) (n : ℕ) (x : Lanes) → Meantime k n x x
Meantime-same k n x = (omega arith, omega arith, refl, λ h. h)

Meantime-if :
    (k : Kind) (n : ℕ) (b : Bool) (x y : Lanes)
    → Meantime k n x y
    → Meantime k n x (if b then y else x)
Meantime-if k n true x y h = h
Meantime-if k n false x y h = Meantime-same k n x

Meantime-trans :
    (k : Kind) (n n' : ℕ) (x y z : Lanes)
    → Meantime k n x y
    → Meantime k n' y z
    → Meantime k (n + n') x z
Meantime-trans k n n' x y z (rounds, seconds, same, failing) (rounds', seconds', same', failing') =
    (
      omega (arith, rounds, rounds'),
      omega (arith, seconds, seconds'),
      same' ∙ same,
      λ h. failing' (failing h),
    )

is_failing-append : (ms : List Message) (m : Message) → is_failing (ms ++ m ∷ []) ≡ true
is_failing-append [] m = refl
is_failing-append (x ∷ ms) m = refl

is_failing-consumed {ℓ} :
    {A : Type ℓ} (o : Option A) (m : Message) (ms failed : List Message)
    → is_failing failed ≡ true
    → is_failing (consumed o m ms failed).0.failed ≡ true
is_failing-consumed none m ms failed h = is_failing-append failed m
is_failing-consumed (some a) m ms failed h = h

is_failing-consume_next {ℓ} :
    {A : Type ℓ} (f : Message → Option A) (waiting failed : List Message)
    → is_failing failed ≡ true
    → is_failing (consume_next f waiting failed).0.failed ≡ true
is_failing-consume_next f [] failed h = h
is_failing-consume_next f (m ∷ ms) failed h = is_failing-consumed (f m) m ms failed h

-- The messages that a view can send to a lane.
abbrev sent_to : Kind → Kind → ℕ
sent_to email email = 1
sent_to email webhook = 0
sent_to webhook email = 0
sent_to webhook webhook = 1

module _ (json : Json) where
  wait-Meantime :
      (k to : Kind) (payload : Payload) (x : Lanes)
      → Meantime k (sent_to to k) x (with_lane to (wait (message_of json payload) (lane_of to x)) x)
  wait-Meantime email email payload x =
      let m = message_of json payload in
      (
        omega (arith, sum_of-append rounds_of x.emails.waiting m),
        omega (arith, sum_of-append seconds_of x.emails.waiting m),
        refl,
        λ h. h,
      )
  wait-Meantime webhook webhook payload x =
      let m = message_of json payload in
      (
        omega (arith, sum_of-append rounds_of x.webhooks.waiting m),
        omega (arith, sum_of-append seconds_of x.webhooks.waiting m),
        refl,
        λ h. h,
      )
  wait-Meantime email webhook payload x = Meantime-same email 0 x
  wait-Meantime webhook email payload x = Meantime-same webhook 0 x

  spec_publish-Meantime :
      (k to : Kind) (payload : Payload) (accepted : Bool) (x : Lanes)
      → Meantime k (sent_to to k) x (spec_publish json to payload accepted x)
  spec_publish-Meantime k to payload accepted x =
      Meantime-if k (sent_to to k) x.exchange x _
        (Meantime-if k (sent_to to k) accepted x _ (wait-Meantime k to payload x))

no_more : (n : ℕ) → 0 + n ≡ n
no_more n = omega arith

one_each : (k : Kind) → sent_to email k + sent_to webhook k ≡ 1
one_each email = refl
one_each webhook = refl

abbrev pub views_in : List Meanwhile → ℕ
views_in [] = 0
views_in (told v ∷ ms) = 1 + views_in ms
views_in (took d ∷ ms) = views_in ms

abbrev pub views_of : List Round → ℕ
views_of [] = 0
views_of (r ∷ rounds) = views_in r.meanwhile + views_of rounds

module _ (json : Json) (smtp : Smtp) where
  spec_deliver-Meantime :
      (k : Kind) (d : Delivery) (x : Lanes) → Meantime k 0 x (spec_deliver json smtp d x)
  spec_deliver-Meantime email (mail sent) x =
      let f = λ (m : Message). if_sent sent (mail_of json smtp m) in
      (
        omega (arith, left-consume_next rounds_of f x.emails.waiting x.emails.failed),
        omega (arith, left-consume_next seconds_of f x.emails.waiting x.emails.failed),
        refl,
        is_failing-consume_next f x.emails.waiting x.emails.failed,
      )
  spec_deliver-Meantime email (post accepted) x = Meantime-same email 0 x
  spec_deliver-Meantime webhook (mail sent) x = Meantime-same webhook 0 x
  spec_deliver-Meantime webhook (post accepted) x =
      let f = λ (m : Message). if_sent accepted (post_of json m) in
      (
        omega (arith, left-consume_next rounds_of f x.webhooks.waiting x.webhooks.failed),
        omega (arith, left-consume_next seconds_of f x.webhooks.waiting x.webhooks.failed),
        refl,
        is_failing-consume_next f x.webhooks.waiting x.webhooks.failed,
      )

  spec_viewed-Meantime :
      (k : Kind) (v : View) (x : Lanes) → Meantime k 1 x (spec_viewed json smtp v x)
  spec_viewed-Meantime k v x =
      let ip = or_unknown v.actor_ip in
      let mailed =
        spec_publish json email (email_payload (text_or_empty v.notify_email) v.secret_id ip)
          v.email_accepted x in
      let y = if is_told_by_mail smtp v then mailed else x in
      let payload = webhook_payload (text_or_empty v.webhook_url) v.secret_id ip in
      let z = spec_publish json webhook payload v.webhook_accepted y in
      subst (λ n. Meantime k n x (spec_viewed json smtp v x)) (one_each k)
        (Meantime-trans k (sent_to email k) (sent_to webhook k) x y
          (if is_given v.webhook_url then z else y)
          (Meantime-if k (sent_to email k) (is_told_by_mail smtp v) x mailed (
            spec_publish-Meantime json k email
              (email_payload (text_or_empty v.notify_email) v.secret_id ip) v.email_accepted x))
          (Meantime-if k (sent_to webhook k) (is_given v.webhook_url) y z
            (spec_publish-Meantime json k webhook payload v.webhook_accepted y)))

  pub spec_run-Meantime :
      (k : Kind) (ms : List Meanwhile) (x : Lanes)
      → Meantime k (views_in ms) x (spec_run json smtp (map event_of ms) x)
  unfolding spec_run
  spec_run-Meantime k [] x = Meantime-same k 0 x
  spec_run-Meantime k (told v ∷ ms) x =
      Meantime-trans k 1 (views_in ms) x _ _ (spec_viewed-Meantime k v x)
        (spec_run-Meantime k ms (spec_viewed json smtp v x))
  spec_run-Meantime k (took d ∷ ms) x =
      let y = spec_deliver json smtp d x in
      subst (λ n. Meantime k n x (spec_run json smtp (map event_of ms) y)) (no_more (views_in ms))
        (Meantime-trans k 0 (views_in ms) x y _ (spec_deliver-Meantime k d x)
          (spec_run-Meantime k ms y))
