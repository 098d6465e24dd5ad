-- ===== src/Notifications/Lanes.antt =====
-- The specification of the notifications: two lanes, each with the messages that wait for their
-- consumer and those that it rejected. It knows no exchange, binding or queue name.
use phantom_share.Prelude.{
  ℕ, true, false, ◌+◌, ◌-◌, ◌*◌, String, Bool, not, ◌&&◌, ◌||◌, Option, none, some, List, [], ◌∷◌,
  ◌++◌, str_eq, ltb, if◌then◌else◌,
}
use Prim.Native.Nat.{◌^◌}
use phantom_share.Secrets.Guards.{is_given}
use phantom_share.Amqp.{Message, Broker}
use phantom_share.Notifications.{
  View, Event, viewed, delivered, or_same, Delivery, Kind, email, webhook, mail, post, mail_of,
  post_of, message_of, routing_key_of,
}
use phantom_share.Notifications.Messages.{
  Payload, Json, Smtp, Mail, Post, Alert, Station, or_zero, if_sent, email_payload, webhook_payload,
  text_or_empty, or_unknown, notification_exchange, email_queue, webhook_queue, email_dlq,
  webhook_dlq, dlx, email_routing_key, webhook_routing_key, max_retries, retry_base_delay,
}

pub record Lane : Type 0 where
  pub waiting : List Message
  pub failed : List Message

pub record Lanes : Type 0 where
  pub emails : Lane
  pub webhooks : Lane
  pub exchange : Bool
  pub mails : List Mail
  pub posts : List Post
  pub alerts : List Alert
  pub clock : ℕ

-- A message goes out, or is put with the failed ones.
abbrev pub consumed {ℓ} :
    {A : Type ℓ} → Option A → Message → List Message → List Message → Lane × List A
consumed none m ms failed = (record { waiting = ms; failed = failed ++ m ∷ [] }, [])
consumed (some a) m ms failed = (record { waiting = ms; failed = failed }, a ∷ [])

-- The same for the next message that waits.
abbrev pub consume_next {ℓ} :
    {A : Type ℓ} → (Message → Option A) → List Message → List Message → Lane × List A
consume_next f [] failed = (record { waiting = []; failed = failed }, [])
consume_next f (m ∷ ms) failed = consumed (f m) m ms failed

abbrev pub consume {ℓ} : {A : Type ℓ} → (Message → Option A) → Lane → Lane × List A
consume f l = consume_next f l.waiting l.failed

-- What one retry changes: the lane, the alerts that are new, and the seconds it slept; and whether the
-- retries go on.
pub record Retried : Type 0 where
  pub lane : Lane
  pub alerts : List Alert
  pub slept : ℕ
  pub goes_on : Bool

-- A failed message waits again with one more attempt, or ends in an alert after the last one. Where it
-- is refused it stays, and the retries end.
abbrev pub retry_message : String → Bool → ℕ → Message → List Message → List Message → Retried
retry_message routing_key accepted attempt m waiting ms =
    if ltb max_retries attempt
    then record {
      lane = record { waiting = waiting; failed = ms };
      alerts = record { body = m.body; routing_key = routing_key; attempts = attempt } ∷ [];
      slept = 0;
      goes_on = true;
    }
    else if accepted
    then record {
      lane = record { waiting = waiting ++ record m { attempt = some attempt } ∷ []; failed = ms };
      alerts = [];
      slept = retry_base_delay * 2 ^ (attempt - 1);
      goes_on = true;
    }
    else record {
      lane = record { waiting = waiting; failed = m ∷ ms };
      alerts = [];
      slept = retry_base_delay * 2 ^ (attempt - 1);
      goes_on = false;
    }

abbrev pub retry_failed : String → Bool → List Message → List Message → Option Retried
retry_failed routing_key accepted waiting [] = none
retry_failed routing_key accepted waiting (m ∷ ms) =
    some (retry_message routing_key accepted (or_zero m.attempt + 1) m waiting ms)

abbrev pub lane_of : Kind → Lanes → Lane
lane_of email x = x.emails
lane_of webhook x = x.webhooks

abbrev pub with_lane : Kind → Lane → Lanes → Lanes
with_lane email l x = record x { emails = l }
with_lane webhook l x = record x { webhooks = l }

abbrev pub retried : Kind → Lanes → Retried → Lanes
retried k x r =
    with_lane k r.lane (record x { alerts = x.alerts ++ r.alerts; clock = x.clock + r.slept })

unfoldable pub retry_lane : Kind → Bool → Lanes → Option (Bool × Lanes)
retry_lane k accepted x =
    elim (retry_failed (routing_key_of k) accepted (lane_of k x).waiting (lane_of k x).failed) [
      | none ↦ none
      | some r ↦ some (r.goes_on, retried k x r)
    ]

module _ (json : Json) (smtp : Smtp) where
  abbrev pub spec_deliver : Delivery → Lanes → Lanes
  spec_deliver (mail sent) x =
      let (l, out) = consume (λ m. if_sent sent (mail_of json smtp m)) x.emails in
      record x { emails = l; mails = x.mails ++ out }
  spec_deliver (post accepted) x =
      let (l, out) = consume (λ m. if_sent accepted (post_of json m)) x.webhooks in
      record x { webhooks = l; posts = x.posts ++ out }

-- The broker with the topology of `setup_topology` and the messages of the lanes.
abbrev pub ready : Lane → Lane → Broker
ready e w = record {
  exchanges = notification_exchange ∷ dlx ∷ [];
  queues =
      record {
        name = email_queue;
        arguments = some (record { exchange = dlx; routing_key = email_dlq });
        messages = e.waiting;
      }
      ∷ record {
        name = webhook_queue;
        arguments = some (record { exchange = dlx; routing_key = webhook_dlq });
        messages = w.waiting;
      }
      ∷ record { name = email_dlq; arguments = none; messages = e.failed }
      ∷ record { name = webhook_dlq; arguments = none; messages = w.failed }
      ∷ [];
  bindings =
      record {
        queue = email_queue;
        exchange = notification_exchange;
        routing_key = email_routing_key;
      }
      ∷ record {
        queue = webhook_queue;
        exchange = notification_exchange;
        routing_key = webhook_routing_key;
      }
      ∷ record { queue = email_dlq; exchange = dlx; routing_key = email_dlq }
      ∷ record { queue = webhook_dlq; exchange = dlx; routing_key = webhook_dlq }
      ∷ [];
}

abbrev pub station : Lanes → Station
station x = record {
  broker = ready x.emails x.webhooks;
  exchange = x.exchange;
  mails = x.mails;
  posts = x.posts;
  alerts = x.alerts;
  clock = x.clock;
}

abbrev pub wait : Message → Lane → Lane
wait m l = record l { waiting = l.waiting ++ m ∷ [] }

module _ (json : Json) where
  abbrev pub spec_publish : Kind → Payload → Bool → Lanes → Lanes
  spec_publish k payload accepted x =
      if x.exchange
      then if accepted then with_lane k (wait (message_of json payload) (lane_of k x)) x else x
      else x

abbrev pub is_told_by_mail : Smtp → View → Bool
is_told_by_mail smtp v =
    is_given v.notify_email && not (str_eq smtp.username "" || str_eq smtp.password "")

module _ (json : Json) (smtp : Smtp) where
  -- A view sends a message down each lane that the owner asked for.
  abbrev pub spec_viewed : View → Lanes → Lanes
  spec_viewed v x =
      let ip = or_unknown v.actor_ip in
      let y =
        if is_told_by_mail smtp v
        then spec_publish json email (email_payload (text_or_empty v.notify_email) v.secret_id ip)
            v.email_accepted x
        else x in
      if is_given v.webhook_url
      then spec_publish json webhook (webhook_payload (text_or_empty v.webhook_url) v.secret_id ip)
          v.webhook_accepted y
      else y

  abbrev pub spec_step : Event → Lanes → Lanes
  spec_step (viewed v) x = spec_viewed v x
  spec_step (delivered d) x = spec_deliver json smtp d x
  spec_step (Event.retried k accepted) x = or_same x (retry_lane k accepted x)

  unfoldable pub spec_run : List Event → Lanes → Lanes
  spec_run [] x = x
  spec_run (e ∷ es) x = spec_run es (spec_step e x)
