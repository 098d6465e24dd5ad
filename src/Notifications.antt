-- ===== src/Notifications.antt =====
-- app/services/notification_service.py and app/services/notification_worker.py: the messages about a
-- view that wait in the broker, the two consumers, and the retries of what a consumer rejected. The
-- tracing headers are left out.
pub mod Messages
pub mod Lanes
pub mod Telling
pub mod Rounds
pub mod Meantime
pub mod Draining
pub mod Weights
pub mod Accounting
pub mod Runs
pub mod Refinement
use phantom_share.Prelude.{
  is_some, map, ℕ, zero, suc, ◌+◌, ◌-◌, ◌*◌, String, Bool, true, false, ◌≡◌, Option, none, some,
  List, [], ◌∷◌, ◌++◌, str_eq, ltb, ◌||◌, if◌then◌else◌,
}
use Prim.Native.Nat.{◌^◌}
use phantom_share.Text.{◌++◌ as ◌&◌}
use phantom_share.Result.{Result, ok, ◌>>=◌}
use phantom_share.Sql.{select_one, insert}
use phantom_share.Secrets.Guards.{is_given}
use phantom_share.Amqp.{
  Broker, Message, DeadLetter, declare_exchange, declare_queue, bind, route, get, reject,
}
use phantom_share.Notifications.Messages.{
  notification_exchange, email_queue, webhook_queue, email_routing_key, webhook_routing_key,
  email_dlq, webhook_dlq, dlx, max_retries, retry_base_delay, setup_topology, Payload, Json, Smtp,
  Mail, Post, Alert, Station, field_is, field, build_email, and_then, or_unknown, email_payload,
  webhook_payload, text_or_empty, mailed, posted, if_sent, or_zero, fire_critical_alert,
}

-- What the loop does with a message that it took from a dead-letter queue, and whether it goes on.
-- Where the exchange refuses the message the loop ends with an exception before the `ack`, and the
-- message is in its queue again. `b` is the broker without the message.
unfoldable pub retry : String → Bool → Message → Broker → Station → Bool × Station
unfolding route
retry routing_key accepted m b s =
    let attempt = or_zero m.attempt + 1 in
    let delay = retry_base_delay * 2 ^ (attempt - 1) in
    if ltb max_retries attempt
    then (true, fire_critical_alert m.body routing_key attempt (record s { broker = b }))
    else if accepted
    then (
      true,
      record s {
        broker = route notification_exchange routing_key (record m { attempt = some attempt }) b;
        clock = s.clock + delay;
      },
    )
    else (false, record s { clock = s.clock + delay })

-- One round of the inner loop of `retry_loop`; `none` where the queue is empty.
unfoldable pub retry_next : String → String → Bool → Station → Option (Bool × Station)
unfolding get retry
retry_next dlq routing_key accepted s = elim (get dlq s.broker) [
  | none ↦ none
  | some (m, b) ↦ some (retry routing_key accepted m b s)
]

module _ (json : Json) where
  abbrev pub message_of : Payload → Message
  message_of payload = record { body = json.dumps payload; attempt = none }

  -- `publish`: where there is no exchange, or the broker refuses the message, it is dropped.
  unfoldable pub publish : String → Payload → Bool → Station → Station
  unfolding route
  publish routing_key payload accepted s =
      if s.exchange
      then if accepted
        then record s {
          broker = route notification_exchange routing_key (message_of payload) s.broker;
        }
        else s
      else s

  unfoldable pub post_of : Message → Option Post
  unfolding field
  post_of m = and_then (json.loads m.body) (λ payload. and_then (field "url" payload) (λ url.
      and_then (field "secret_id" payload) (λ secret_id. and_then (field "event" payload) (λ event.
        and_then (field "actor_ip" payload) (λ actor_ip.
          some
            (record { url = url; secret_id = secret_id; event = event; actor_ip = actor_ip }))))))

  -- `handle_webhook`. `accepted` says whether the request is answered, and with a good status.
  unfoldable pub handle_webhook : Bool → Station → Station
  unfolding post_of get
  handle_webhook accepted s = elim (get webhook_queue s.broker) [
    | none ↦ s
    | some (m, b) ↦ posted (if_sent accepted (post_of m)) m b s
  ]

module _ (json : Json) (smtp : Smtp) where
  -- `notify_secret_viewed`; the two Booleans say whether the broker accepts the two messages.
  unfoldable pub notify_secret_viewed :
      String → Option String → Option String → Option String → Bool → Bool → Station → Station
  unfolding publish
  notify_secret_viewed secret_id notify_email webhook_url actor_ip email_accepted webhook_accepted
        s =
      let ip = or_unknown actor_ip in
      let s1 =
        if is_given notify_email
        then if str_eq smtp.username "" || str_eq smtp.password ""
          then s
          else publish json email_routing_key
              (email_payload (text_or_empty notify_email) secret_id ip) email_accepted s
        else s in
      if is_given webhook_url
      then publish json webhook_routing_key
          (webhook_payload (text_or_empty webhook_url) secret_id ip) webhook_accepted s1
      else s1

  -- The mail of a message, `send_smtp` on the payload; `none` where the body is no JSON or a key is
  -- missing.
  unfoldable pub mail_of : Message → Option Mail
  unfolding build_email field
  mail_of m = and_then (json.loads m.body) (λ payload. and_then (field "to" payload) (λ to.
      and_then (field "secret_id" payload) (λ secret_id.
        and_then (field "actor_ip" payload)
          (λ actor_ip. some (build_email smtp to secret_id actor_ip)))))

  -- `handle_email` on the next message of its queue. `sent` says whether the mail server takes the
  -- mail. What raises inside `message.process(requeue=False)` rejects the message.
  unfoldable pub handle_email : Bool → Station → Station
  unfolding mail_of get
  handle_email sent s = elim (get email_queue s.broker) [
    | none ↦ s
    | some (m, b) ↦ mailed (if_sent sent (mail_of m)) m b s
  ]

-- The next delivery of a consumer: a mail and whether it is sent, or a request and whether it is
-- accepted.
pub data Delivery : Type 0 where
  mail post : Bool → Delivery

pub data Kind : Type 0 where
  email webhook : Kind

abbrev pub dlq_of : Kind → String
dlq_of email = email_dlq
dlq_of webhook = webhook_dlq

abbrev pub routing_key_of : Kind → String
routing_key_of email = email_routing_key
routing_key_of webhook = webhook_routing_key

module _ (json : Json) (smtp : Smtp) where
  abbrev pub deliver : Delivery → Station → Station
  deliver (mail sent) s = handle_email json smtp sent s
  deliver (post accepted) s = handle_webhook json accepted s

-- What happens around the broker, one after the other: a view that is told, a delivery to a consumer,
-- a round of the retries and whether the exchange takes what it publishes.
pub record View : Type 0 where
  pub secret_id : String
  pub notify_email : Option String
  pub webhook_url : Option String
  pub actor_ip : Option String
  pub email_accepted : Bool
  pub webhook_accepted : Bool

pub data Event : Type 0 where
  viewed : View → Event
  delivered : Delivery → Event
  retried : Kind → Bool → Event

abbrev pub or_same {ℓ} : {A : Type ℓ} → A → Option (Bool × A) → A
or_same a none = a
or_same a (some (_, b)) = b

module _ (json : Json) (smtp : Smtp) where
  abbrev pub step : Event → Station → Station
  step (viewed v) s =
      notify_secret_viewed json smtp v.secret_id v.notify_email v.webhook_url v.actor_ip
        v.email_accepted v.webhook_accepted s
  step (delivered d) s = deliver json smtp d s
  step (retried k accepted) s = or_same s (retry_next (dlq_of k) (routing_key_of k) accepted s)

  unfoldable pub run : List Event → Station → Station
  run [] s = s
  run (e ∷ es) s = run es (step e s)

-- What goes on while the loop sleeps, before it publishes: handlers tell of views, and the consumers
-- take messages.
pub data Meanwhile : Type 0 where
  told : View → Meanwhile
  took : Delivery → Meanwhile

abbrev pub event_of : Meanwhile → Event
event_of (told v) = viewed v
event_of (took d) = delivered d

pub record Round : Type 0 where
  pub meanwhile : List Meanwhile
  pub accepted : Bool

-- After the listed rounds nothing goes on, and the exchange takes what is published.
abbrev pub next_round : List Round → Round × List Round
next_round [] = (record { meanwhile = []; accepted = true }, [])
next_round (r ∷ rounds) = (r, rounds)

abbrev pub has_failed : Kind → Station → Bool
has_failed k s = is_some (get (dlq_of k) s.broker)

abbrev pub or_stay : Station → Option (Bool × Station) → Bool × Station
or_stay s none = (true, s)
or_stay s (some r) = r

module _ (json : Json) (smtp : Smtp) where
  -- The inner `while True` of `retry_loop`, and whether it ended by its `break`.
  unfoldable pub drain : ℕ → Kind → List Round → Station → Bool × Station
  unfolding run get retry_next
  drain zero k rounds s = (false, s)
  drain (suc fuel) k rounds s =
      let (r, rest) = next_round rounds in
      let s1 = run json smtp (map event_of r.meanwhile) s in
      let (goes_on, s2) = or_stay s1 (retry_next (dlq_of k) (routing_key_of k) r.accepted s1) in
      let after = drain fuel k rest s2 in
      if has_failed k s then (if goes_on then after else (false, s2)) else (true, s)

  -- The `for` loop of `retry_loop`, once.
  unfoldable pub retry_pass : ℕ → ℕ → List Round → List Round → Station → Bool × Station
  unfolding drain
  retry_pass fuel fuel' rounds rounds' s =
      let (mails_done, s1) = drain fuel email rounds s in
      if mails_done then drain fuel' webhook rounds' s1 else (false, s1)
