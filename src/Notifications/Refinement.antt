-- ===== src/Notifications/Refinement.antt =====
-- The worker on the broker refines the lanes.
use phantom_share.Prelude.{
  ℕ, ◌+◌, ◌≡◌, refl, ap, Bool, true, false, Option, none, some, List, [], ◌∷◌, ◌++◌, ltb, arith,
}
use phantom_share.Result.{ok}
use phantom_share.Amqp.{Message, Broker, declare_queue, declare_exchange, bind}
use phantom_share.Notifications.{
  Delivery, Kind, email, webhook, mail, post, mail_of, post_of, or_same, retry, handle_email,
  handle_webhook, retry_next, dlq_of, routing_key_of, has_failed, deliver,
}
use phantom_share.Notifications.Messages.{
  Json, Smtp, Mail, Post, if_sent, email_dlq, webhook_dlq, mailed, posted, or_zero,
  email_routing_key, webhook_routing_key, max_retries, Station, setup_topology,
}
use phantom_share.Notifications.Lanes.{
  Lane, Lanes, consumed, retried, retry_message, ready, station, spec_deliver, retry_lane, lane_of,
}

abbrev empty_lane : Lane
empty_lane = record { waiting = []; failed = [] }

setup_topology-empty :
    setup_topology (record { exchanges = []; queues = []; bindings = [] })
    ≡ ok (ready empty_lane empty_lane)
unfolding setup_topology phantom_share.Sql.exists phantom_share.Sql.select_one
    phantom_share.Sql.insert
setup_topology-empty = refl

setup_topology-ready : (e w : Lane) → setup_topology (ready e w) ≡ ok (ready e w)
unfolding setup_topology phantom_share.Sql.exists phantom_share.Sql.select_one
    phantom_share.Sql.insert
setup_topology-ready e w = refl

pub append_nil {ℓ} : {A : Type ℓ} (xs : List A) → xs ++ [] ≡ xs
append_nil [] = refl
append_nil (x ∷ xs) = ap (λ ys. x ∷ ys) (append_nil xs)

add_zero : (n : ℕ) → n + 0 ≡ n
add_zero n = omega arith

abbrev with_emails : List Message → List Message → Lanes → Lanes
with_emails waiting failed x = record x { emails = record { waiting = waiting; failed = failed } }

abbrev with_webhooks : List Message → List Message → Lanes → Lanes
with_webhooks waiting failed x = record x {
  webhooks = record { waiting = waiting; failed = failed };
}

mailed_lanes :
    (o : Option Mail) (m : Message) (ms failed : List Message) (x : Lanes)
    → mailed o m
        (station (with_emails ms failed x)).broker
        (station (with_emails (m ∷ ms) failed x))
      ≡ station (record x {
        emails = (consumed o m ms failed).0;
        mails = x.mails ++ (consumed o m ms failed).1;
      })
unfolding phantom_share.Amqp.reject phantom_share.Amqp.route phantom_share.Sql.select_one
    phantom_share.Sql.update phantom_share.Sql.exists
mailed_lanes none m ms failed x = rw (append_nil x.mails) refl
mailed_lanes (some a) m ms failed x = refl

posted_lanes :
    (o : Option Post) (m : Message) (ms failed : List Message) (x : Lanes)
    → posted o m
        (station (with_webhooks ms failed x)).broker
        (station (with_webhooks (m ∷ ms) failed x))
      ≡ station (record x {
        webhooks = (consumed o m ms failed).0;
        posts = x.posts ++ (consumed o m ms failed).1;
      })
unfolding phantom_share.Amqp.reject phantom_share.Amqp.route phantom_share.Sql.select_one
    phantom_share.Sql.update phantom_share.Sql.exists
posted_lanes none m ms failed x = rw (append_nil x.posts) refl
posted_lanes (some a) m ms failed x = refl

module _ (json : Json) (smtp : Smtp) where
  by_emails :
      (sent : Bool) (waiting failed : List Message) (x : Lanes)
      → handle_email json smtp sent (station (with_emails waiting failed x))
        ≡ station (spec_deliver json smtp (mail sent) (with_emails waiting failed x))
  unfolding handle_email phantom_share.Amqp.get phantom_share.Amqp.reject phantom_share.Amqp.route
      phantom_share.Sql.select_one phantom_share.Sql.update phantom_share.Sql.exists
  by_emails sent [] failed x = rw (append_nil x.mails) refl
  by_emails sent (m ∷ ms) failed x = mailed_lanes (if_sent sent (mail_of json smtp m)) m ms failed x

  by_webhooks :
      (accepted : Bool) (waiting failed : List Message) (x : Lanes)
      → handle_webhook json accepted (station (with_webhooks waiting failed x))
        ≡ station (spec_deliver json smtp (post accepted) (with_webhooks waiting failed x))
  unfolding handle_webhook phantom_share.Amqp.get phantom_share.Amqp.reject phantom_share.Amqp.route
      phantom_share.Sql.select_one phantom_share.Sql.update phantom_share.Sql.exists
  by_webhooks accepted [] failed x = rw (append_nil x.posts) refl
  by_webhooks accepted (m ∷ ms) failed x =
      posted_lanes (if_sent accepted (post_of json m)) m ms failed x

  pub deliver_lanes :
      (d : Delivery) (x : Lanes)
      → deliver json smtp d (station x) ≡ station (spec_deliver json smtp d x)
  deliver_lanes (mail sent) x = by_emails sent x.emails.waiting x.emails.failed x
  deliver_lanes (post accepted) x = by_webhooks accepted x.webhooks.waiting x.webhooks.failed x

abbrev pub of_lanes : Bool × Lanes → Bool × Station
of_lanes (goes_on, x) = (goes_on, station x)

abbrev pub map_option : Option (Bool × Lanes) → Option (Bool × Station)
map_option none = none
map_option (some r) = some (of_lanes r)

retry_emails :
    (late accepted : Bool) (m : Message) (waiting ms : List Message) (x : Lanes)
    → ltb max_retries (or_zero m.attempt + 1) ≡ late
    → retry email_routing_key accepted m
        (station (with_emails waiting ms x)).broker
        (station (with_emails waiting (m ∷ ms) x))
      ≡ (let r = retry_message email_routing_key accepted (or_zero m.attempt + 1) m waiting ms in
          (r.goes_on, station (retried email (with_emails waiting (m ∷ ms) x) r)))
unfolding retry phantom_share.Amqp.route phantom_share.Sql.select_one phantom_share.Sql.update
    phantom_share.Sql.exists
retry_emails true accepted m waiting ms x h = rw (h, add_zero x.clock) refl
retry_emails false true m waiting ms x h = rw (h, append_nil x.alerts) refl
retry_emails false false m waiting ms x h = rw (h, append_nil x.alerts) refl

retry_next_emails :
    (accepted : Bool) (waiting failed : List Message) (x : Lanes)
    → retry_next email_dlq email_routing_key accepted (station (with_emails waiting failed x))
      ≡ map_option (retry_lane email accepted (with_emails waiting failed x))
unfolding retry_next retry_lane phantom_share.Amqp.get phantom_share.Sql.select_one
    phantom_share.Sql.update
retry_next_emails accepted waiting [] x = refl
retry_next_emails accepted waiting (m ∷ ms) x =
    ap some (retry_emails (ltb max_retries (or_zero m.attempt + 1)) accepted m waiting ms x refl)

retry_webhooks :
    (late accepted : Bool) (m : Message) (waiting ms : List Message) (x : Lanes)
    → ltb max_retries (or_zero m.attempt + 1) ≡ late
    → retry webhook_routing_key accepted m
        (station (with_webhooks waiting ms x)).broker
        (station (with_webhooks waiting (m ∷ ms) x))
      ≡ (let r = retry_message webhook_routing_key accepted (or_zero m.attempt + 1) m waiting ms in
          (r.goes_on, station (retried webhook (with_webhooks waiting (m ∷ ms) x) r)))
unfolding retry phantom_share.Amqp.route phantom_share.Sql.select_one phantom_share.Sql.update
    phantom_share.Sql.exists
retry_webhooks true accepted m waiting ms x h = rw (h, add_zero x.clock) refl
retry_webhooks false true m waiting ms x h = rw (h, append_nil x.alerts) refl
retry_webhooks false false m waiting ms x h = rw (h, append_nil x.alerts) refl

retry_next_webhooks :
    (accepted : Bool) (waiting failed : List Message) (x : Lanes)
    → retry_next webhook_dlq webhook_routing_key accepted (station (with_webhooks waiting failed x))
      ≡ map_option (retry_lane webhook accepted (with_webhooks waiting failed x))
unfolding retry_next retry_lane phantom_share.Amqp.get phantom_share.Sql.select_one
    phantom_share.Sql.update
retry_next_webhooks accepted waiting [] x = refl
retry_next_webhooks accepted waiting (m ∷ ms) x =
    ap some (retry_webhooks (ltb max_retries (or_zero m.attempt + 1)) accepted m waiting ms x refl)

pub retry_next_lanes :
    (k : Kind) (accepted : Bool) (x : Lanes)
    → retry_next (dlq_of k) (routing_key_of k) accepted (station x)
      ≡ map_option (retry_lane k accepted x)
retry_next_lanes email accepted x = retry_next_emails accepted x.emails.waiting x.emails.failed x
retry_next_lanes webhook accepted x =
    retry_next_webhooks accepted x.webhooks.waiting x.webhooks.failed x

pub spec_retried :
    (x : Lanes) (o : Option (Bool × Lanes))
    → or_same (station x) (map_option o) ≡ station (or_same x o)
spec_retried x none = refl
spec_retried x (some (_, y)) = refl

abbrev pub is_failing : List Message → Bool
is_failing [] = false
is_failing (m ∷ ms) = true

has_failed_emails :
    (waiting failed : List Message) (x : Lanes)
    → has_failed email (station (with_emails waiting failed x)) ≡ is_failing failed
unfolding phantom_share.Amqp.get phantom_share.Sql.select_one
has_failed_emails waiting [] x = refl
has_failed_emails waiting (m ∷ ms) x = refl

has_failed_webhooks :
    (waiting failed : List Message) (x : Lanes)
    → has_failed webhook (station (with_webhooks waiting failed x)) ≡ is_failing failed
unfolding phantom_share.Amqp.get phantom_share.Sql.select_one
has_failed_webhooks waiting [] x = refl
has_failed_webhooks waiting (m ∷ ms) x = refl

pub has_failed_lanes :
    (k : Kind) (x : Lanes) → has_failed k (station x) ≡ is_failing (lane_of k x).failed
has_failed_lanes email x = has_failed_emails x.emails.waiting x.emails.failed x
has_failed_lanes webhook x = has_failed_webhooks x.webhooks.waiting x.webhooks.failed x
