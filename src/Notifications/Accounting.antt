-- ===== src/Notifications/Accounting.antt =====
-- Where every notification is: no run loses, doubles or changes one.
use phantom_share.Prelude.{
  ℕ, ◌+◌, ◌≡◌, refl, sym, ap, ◌∙◌, Bool, true, false, Option, none, some, List, [], ◌∷◌, arith,
  if◌then◌else◌, ◌||◌, str_eq, String,
}
use phantom_share.Secrets.Guards.{is_given}
use phantom_share.Amqp.{Message, Queue}
use phantom_share.Notifications.{
  Event, Delivery, Kind, email, webhook, viewed, delivered, mail_of, post_of, mail, post, run,
  or_same, routing_key_of, message_of,
}
use phantom_share.Notifications.Messages.{
  Json, Smtp, Payload, Mail, Post, Alert, Station, email_payload, webhook_payload, or_unknown,
  text_or_empty, if_sent, or_zero, email_routing_key, email_queue, email_dlq,
}
use phantom_share.Notifications.Lanes.{
  with_lane, Lanes, station, consume, retry_message, retry_lane, spec_deliver, spec_publish,
  spec_step, spec_run, is_told_by_mail,
}
use phantom_share.Notifications.Weights.{
  weigh, weigh-append, weigh_bodies, lane_weight, weigh_last, Fits, weigh-consume_next,
  Fits-if_sent, weigh-retry_message,
}
use phantom_share.Notifications.Runs.{run_lanes}

module _ (json : Json) (smtp : Smtp) (f : Option Mail → ℕ) (g : Option Post → ℕ) where
  -- What the mail, or the request, of a message weighs.
  abbrev pub mail_weight : String → ℕ
  mail_weight body = f (mail_of json smtp (record { body = body; attempt = none }))

  abbrev pub post_weight : String → ℕ
  post_weight body = g (post_of json (record { body = body; attempt = none }))

  abbrev pub queue_weight : String → String → ℕ
  queue_weight name body =
      if str_eq name email_queue || str_eq name email_dlq
      then mail_weight body
      else post_weight body

  abbrev pub alert_weight : Alert → ℕ
  alert_weight a =
      if str_eq a.routing_key email_routing_key then mail_weight a.body else post_weight a.body

  abbrev pub queued : List Queue → ℕ
  queued [] = 0
  queued (q ∷ queues) = weigh_bodies (queue_weight q.name) q.messages + queued queues

  -- The messages that wait in the queues, and what has come of all others.
  abbrev pub total : Station → ℕ
  total s =
      queued s.broker.queues
      + (weigh (λ a. f (some a)) s.mails
          + (weigh (λ a. g (some a)) s.posts + weigh alert_weight s.alerts))

  -- The messages that a view hands to the broker.
  abbrev pub handed : Event → ℕ
  handed (viewed v) =
      let ip = or_unknown v.actor_ip in
      (if is_told_by_mail smtp v
        then (if v.email_accepted
            then mail_weight
                (json.dumps (email_payload (text_or_empty v.notify_email) v.secret_id ip))
            else 0)
        else 0)
      + (if is_given v.webhook_url
          then (if v.webhook_accepted
              then post_weight
                  (json.dumps (webhook_payload (text_or_empty v.webhook_url) v.secret_id ip))
              else 0)
          else 0)
  handed (delivered d) = 0
  handed (Event.retried k accepted) = 0

  abbrev pub handed_in : List Event → ℕ
  handed_in [] = 0
  handed_in (e ∷ es) = handed e + handed_in es

  abbrev all_of : Lanes → ℕ
  all_of x =
      lane_weight mail_weight x.emails
      + (lane_weight post_weight x.webhooks
          + (weigh (λ a. f (some a)) x.mails
              + (weigh (λ a. g (some a)) x.posts + weigh alert_weight x.alerts)))

  Fits-mail_of : Fits (λ a. f (some a)) mail_weight (mail_of json smtp)
  unfolding mail_of
  Fits-mail_of m a e = ap f (sym e)

  Fits-post_of : Fits (λ a. g (some a)) post_weight (post_of json)
  unfolding post_of
  Fits-post_of m a e = ap g (sym e)

  all_of-retry_failed :
      (k : Kind) (accepted : Bool) (waiting failed : List Message) (x : Lanes)
      → (let y = with_lane k (record { waiting = waiting; failed = failed }) x in
          (all_of (or_same y (retry_lane k accepted y)) ≡ all_of y)
          × ((or_same y (retry_lane k accepted y)).exchange ≡ x.exchange))
  unfolding retry_lane
  all_of-retry_failed email accepted waiting [] x = (refl, refl)
  all_of-retry_failed webhook accepted waiting [] x = (refl, refl)
  all_of-retry_failed email accepted waiting (m ∷ ms) x =
      let n = or_zero m.attempt + 1 in
      let key = routing_key_of email in
      let r = retry_message key accepted n m waiting ms in
      (
        omega (
          arith,
          weigh-retry_message alert_weight mail_weight key accepted n m waiting ms refl,
          weigh-append alert_weight x.alerts r.alerts,
        ),
        refl,
      )
  all_of-retry_failed webhook accepted waiting (m ∷ ms) x =
      let n = or_zero m.attempt + 1 in
      let key = routing_key_of webhook in
      let r = retry_message key accepted n m waiting ms in
      (
        omega (
          arith,
          weigh-retry_message alert_weight post_weight key accepted n m waiting ms refl,
          weigh-append alert_weight x.alerts r.alerts,
        ),
        refl,
      )

  all_of-retry_lane :
      (k : Kind) (accepted : Bool) (x : Lanes)
      → (all_of (or_same x (retry_lane k accepted x)) ≡ all_of x)
        × ((or_same x (retry_lane k accepted x)).exchange ≡ x.exchange)
  all_of-retry_lane email accepted x =
      all_of-retry_failed email accepted x.emails.waiting x.emails.failed x
  all_of-retry_lane webhook accepted x =
      all_of-retry_failed webhook accepted x.webhooks.waiting x.webhooks.failed x

  abbrev body_weight : Kind → String → ℕ
  body_weight email body = mail_weight body
  body_weight webhook body = post_weight body

  all_of-spec_publish :
      (k : Kind) (payload : Payload) (accepted : Bool) (x : Lanes)
      → x.exchange ≡ true
      → (all_of (spec_publish json k payload accepted x)
          ≡ (if accepted then body_weight k (json.dumps payload) else 0) + all_of x)
        × ((spec_publish json k payload accepted x).exchange ≡ true)
  all_of-spec_publish k payload false x h = rw h (omega arith, refl)
  all_of-spec_publish email payload true x h =
      rw h (omega (arith, weigh_last mail_weight x.emails.waiting (message_of json payload)), refl)
  all_of-spec_publish webhook payload true x h =
      rw h
        (omega (arith, weigh_last post_weight x.webhooks.waiting (message_of json payload)), refl)

  -- A message that is handed over where `asked`.
  all_of-asked :
      (asked accepted : Bool) (k : Kind) (payload : Payload) (x : Lanes)
      → x.exchange ≡ true
      → (all_of (if asked then spec_publish json k payload accepted x else x)
          ≡ (if asked then (if accepted then body_weight k (json.dumps payload) else 0) else 0)
            + all_of x)
        × ((if asked then spec_publish json k payload accepted x else x).exchange ≡ true)
  all_of-asked true accepted k payload x h = all_of-spec_publish k payload accepted x h
  all_of-asked false accepted k payload x h = (omega arith, h)

  all_of-spec_deliver : (d : Delivery) (x : Lanes) → all_of (spec_deliver json smtp d x) ≡ all_of x
  all_of-spec_deliver (mail sent) x =
      let take = λ (m : Message). if_sent sent (mail_of json smtp m) in
      omega (
        arith,
        weigh-consume_next (λ a. f (some a)) mail_weight take x.emails.waiting x.emails.failed
            (Fits-if_sent (λ a. f (some a)) mail_weight (mail_of json smtp) sent Fits-mail_of),
        weigh-append (λ a. f (some a)) x.mails (consume take x.emails).1,
      )
  all_of-spec_deliver (post accepted) x =
      let take = λ (m : Message). if_sent accepted (post_of json m) in
      omega (
        arith,
        weigh-consume_next (λ a. g (some a)) post_weight take x.webhooks.waiting x.webhooks.failed
            (Fits-if_sent (λ a. g (some a)) post_weight (post_of json) accepted Fits-post_of),
        weigh-append (λ a. g (some a)) x.posts (consume take x.webhooks).1,
      )

  all_of-spec_step :
      (e : Event) (x : Lanes)
      → x.exchange ≡ true
      → (all_of (spec_step json smtp e x) ≡ handed e + all_of x)
        × ((spec_step json smtp e x).exchange ≡ true)
  all_of-spec_step (viewed v) x h =
      let ip = or_unknown v.actor_ip in
      let mailed =
        all_of-asked (is_told_by_mail smtp v) v.email_accepted email
          (email_payload (text_or_empty v.notify_email) v.secret_id ip) x h in
      let posted =
        all_of-asked (is_given v.webhook_url) v.webhook_accepted webhook
          (webhook_payload (text_or_empty v.webhook_url) v.secret_id ip) _ mailed.1 in
      (omega (arith, mailed.0, posted.0), posted.1)
  all_of-spec_step (delivered (mail sent)) x h =
      (omega (arith, all_of-spec_deliver (mail sent) x), h)
  all_of-spec_step (delivered (post accepted)) x h =
      (omega (arith, all_of-spec_deliver (post accepted) x), h)
  all_of-spec_step (Event.retried k accepted) x h =
      let (same, on) = all_of-retry_lane k accepted x in (omega (arith, same), on ∙ h)

  all_of-spec_run :
      (es : List Event) (x : Lanes)
      → x.exchange ≡ true
      → all_of (spec_run json smtp es x) ≡ handed_in es + all_of x
  unfolding spec_run
  all_of-spec_run [] x h = omega arith
  all_of-spec_run (e ∷ es) x h =
      let (now, on) = all_of-spec_step e x h in
      omega (arith, now, all_of-spec_run es (spec_step json smtp e x) on)

  total-station : (x : Lanes) → total (station x) ≡ all_of x
  total-station x = omega arith

  -- No notification is lost, doubled or changed. Let each mail and each request, and what cannot be
  -- read as one, weigh any number: one for a single mail and none for all else, say. In a run that
  -- starts on a broker with the topology, whose exchange the publisher has, what the views hand to the
  -- broker and what was there before weighs what is, at the end, in one of the queues, sent, posted,
  -- or named by an alert.
  pub total-run :
      (es : List Event) (x : Lanes)
      → x.exchange ≡ true
      → total (run json smtp es (station x)) ≡ handed_in es + total (station x)
  total-run es x h =
      ap total (run_lanes json smtp es x)
      ∙ (total-station (spec_run json smtp es x)
          ∙ (all_of-spec_run es x h ∙ ap (λ n. handed_in es + n) (sym (total-station x))))
