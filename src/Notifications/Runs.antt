-- ===== src/Notifications/Runs.antt =====
-- Any run of views, deliveries and retries on the broker is a run of the lanes.
use phantom_share.Prelude.{
  ◌≡◌, refl, ap, ◌∙◌, Bool, true, false, not, ◌&&◌, ◌||◌, List, [], ◌∷◌, if◌then◌else◌, str_eq,
}
use phantom_share.Secrets.Guards.{is_given}
use phantom_share.Notifications.{
  Event, Kind, email, webhook, viewed, delivered, retried, publish, notify_secret_viewed,
  routing_key_of, step, run,
}
use phantom_share.Notifications.Messages.{
  Json, Smtp, Payload, Station, or_unknown, email_payload, webhook_payload, text_or_empty,
}
use phantom_share.Notifications.Lanes.{
  Lanes, station, spec_publish, spec_step, spec_run, is_told_by_mail, retry_lane,
}
use phantom_share.Notifications.Refinement.{deliver_lanes, retry_next_lanes, spec_retried}

if_station :
    (b : Bool) (x y : Lanes) {s : Station}
    → s ≡ station y
    → (if b then s else station x) ≡ station (if b then y else x)
if_station true x y h = h
if_station false x y h = refl

if_told :
    (given unset : Bool) (x y : Lanes) {s : Station}
    → s ≡ station y
    → (if given then (if unset then station x else s) else station x)
      ≡ station (if given && not unset then y else x)
if_told true true x y h = refl
if_told true false x y h = h
if_told false unset x y h = refl

module _ (json : Json) where
  publish_put :
      (k : Kind) (payload : Payload) (set accepted : Bool) (x : Lanes)
      → publish json (routing_key_of k) payload accepted (station (record x { exchange = set }))
        ≡ station (spec_publish json k payload accepted (record x { exchange = set }))
  unfolding publish phantom_share.Amqp.route phantom_share.Sql.update phantom_share.Sql.exists
  publish_put k payload false accepted x = refl
  publish_put k payload true false x = refl
  publish_put email payload true true x = refl
  publish_put webhook payload true true x = refl

  publish_lanes :
      (k : Kind) (payload : Payload) (accepted : Bool) (x : Lanes)
      → publish json (routing_key_of k) payload accepted (station x)
        ≡ station (spec_publish json k payload accepted x)
  publish_lanes k payload accepted x = publish_put k payload x.exchange accepted x

module _ (json : Json) (smtp : Smtp) where
  step_lanes :
      (e : Event) (x : Lanes) → step json smtp e (station x) ≡ station (spec_step json smtp e x)
  unfolding notify_secret_viewed
  step_lanes (viewed v) x =
      let ip = or_unknown v.actor_ip in
      let mail_payload = email_payload (text_or_empty v.notify_email) v.secret_id ip in
      let post_payload = webhook_payload (text_or_empty v.webhook_url) v.secret_id ip in
      let told = spec_publish json email mail_payload v.email_accepted x in
      let y = if is_told_by_mail smtp v then told else x in
      ap
        (λ s.
          if is_given v.webhook_url
          then publish json (routing_key_of webhook) post_payload v.webhook_accepted s
          else s)
        (if_told (is_given v.notify_email) (str_eq smtp.username "" || str_eq smtp.password "") x
          told (publish_lanes json email mail_payload v.email_accepted x))
      ∙ if_station (is_given v.webhook_url) y
          (spec_publish json webhook post_payload v.webhook_accepted y)
          (publish_lanes json webhook post_payload v.webhook_accepted y)
  step_lanes (delivered d) x = deliver_lanes json smtp d x
  step_lanes (retried k accepted) x =
      rw (retry_next_lanes k accepted x) (spec_retried x (retry_lane k accepted x))

  -- A run of the worker on a broker with the topology, from any messages, does what the two lanes do.
  -- The broker keeps the topology, and every mail, request, alert and waiting message is the same.
  pub run_lanes :
      (es : List Event) (x : Lanes)
      → run json smtp es (station x) ≡ station (spec_run json smtp es x)
  unfolding run spec_run
  run_lanes [] x = refl
  run_lanes (e ∷ es) x =
      ap (run json smtp es) (step_lanes e x) ∙ run_lanes es (spec_step json smtp e x)
