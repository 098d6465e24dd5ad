-- ===== src/Notifications/Messages.antt =====
-- The queues of app/services/notification_worker.py, what the messages hold and the mails that are
-- written from them, and the state that the publisher, the consumers and the retries share.
use phantom_share.Prelude.{
  ℕ, String, Bool, true, false, Option, none, some, List, [], ◌∷◌, ◌++◌, str_eq, if◌then◌else◌,
}
use phantom_share.Text.{◌++◌ as ◌&◌}
use phantom_share.Result.{Result, ok, ◌>>=◌}
use phantom_share.Sql.{select_one}
use phantom_share.Amqp.{Broker, Message, DeadLetter, declare_exchange, declare_queue, bind, reject}

abbrev pub notification_exchange : String
notification_exchange = "phantom.notifications"

abbrev pub email_queue : String
email_queue = "phantom.email"

abbrev pub webhook_queue : String
webhook_queue = "phantom.webhook"

abbrev pub email_routing_key : String
email_routing_key = "notify.email"

abbrev pub webhook_routing_key : String
webhook_routing_key = "notify.webhook"

abbrev pub email_dlq : String
email_dlq = "phantom.email.dlq"

abbrev pub webhook_dlq : String
webhook_dlq = "phantom.webhook.dlq"

abbrev pub dlx : String
dlx = "phantom.dlx"

abbrev pub max_retries : ℕ
max_retries = 3

abbrev pub retry_base_delay : ℕ
retry_base_delay = 1

abbrev dlq_args : String → Option DeadLetter
dlq_args dlq_name = some (record { exchange = dlx; routing_key = dlq_name })

-- `setup_topology`
unfoldable pub setup_topology : Broker → Result Broker
unfolding declare_exchange declare_queue bind
setup_topology b = do
  let b1 = declare_exchange dlx (declare_exchange notification_exchange b)
  b2 ← declare_queue email_queue (dlq_args email_dlq) b1
  b3 ← declare_queue webhook_queue (dlq_args webhook_dlq) b2
  let b4 = bind email_queue notification_exchange email_routing_key b3
  let b5 = bind webhook_queue notification_exchange webhook_routing_key b4
  b6 ← declare_queue email_dlq none b5
  b7 ← declare_queue webhook_dlq none b6
  ok (bind webhook_dlq dlx webhook_dlq (bind email_dlq dlx email_dlq b7))

abbrev pub Payload : Type 0
Payload = List (String × String)

-- The library `json`, on dicts of texts.
pub record Json : Type 0 where
  pub dumps : Payload → String
  pub loads : String → Option Payload

pub record Smtp : Type 0 where
  pub username : String
  pub password : String
  pub sender : String

pub record Mail : Type 0 where
  pub subject : String
  pub sender : String
  pub to : String
  pub html : String

pub record Post : Type 0 where
  pub url : String
  pub secret_id : String
  pub event : String
  pub actor_ip : String

-- A call of `logger.critical`.
pub record Alert : Type 0 where
  pub body : String
  pub routing_key : String
  pub attempts : ℕ

-- The broker, the publisher's `_exchange`, and what went out. `clock` is the time that the retries
-- have slept, in seconds.
pub record Station : Type 0 where
  pub broker : Broker
  pub exchange : Bool
  pub mails : List Mail
  pub posts : List Post
  pub alerts : List Alert
  pub clock : ℕ

abbrev pub field_is : String → String × String → Bool
field_is name p = str_eq p.0 name

-- `payload[name]`; `none` is a KeyError.
unfoldable pub field : String → Payload → Option String
field name p = elim (select_one (field_is name) p) [ none ↦ none | some e ↦ some e.1 ]

-- `build_email`
unfoldable pub build_email : Smtp → String → String → String → Mail
build_email smtp to secret_id actor_ip = record {
  subject = "Your Phantom Share secret was viewed";
  sender = smtp.sender;
  to = to;
  html =
      "\n    <html><body>\n      <p>Your secret <strong>"
      & (secret_id
          & ("</strong> was accessed.</p>\n      <p>Viewer IP: <code>"
              & (actor_ip
                  & "</code></p>\n      <p>If this was unexpected, consider revoking further access.</p>\n    </body></html>\n    ")));
}

abbrev pub and_then {ℓ κ} : {A : Type ℓ} {B : Type κ} → Option A → (A → Option B) → Option B
and_then none f = none
and_then (some a) f = f a

abbrev pub or_unknown : Option String → String
or_unknown none = "unknown"
or_unknown (some ip) = if str_eq ip "" then "unknown" else ip

abbrev pub email_payload : String → String → String → Payload
email_payload to secret_id ip = ("to", to) ∷ ("secret_id", secret_id) ∷ ("actor_ip", ip) ∷ []

abbrev pub webhook_payload : String → String → String → Payload
webhook_payload url secret_id ip =
    ("url", url) ∷ ("secret_id", secret_id) ∷ ("event", "secret_viewed") ∷ ("actor_ip", ip) ∷ []

abbrev pub text_or_empty : Option String → String
text_or_empty none = ""
text_or_empty (some t) = t

abbrev pub mailed : Option Mail → Message → Broker → Station → Station
mailed none m b s = record s { broker = reject email_queue m b }
mailed (some mail) m b s = record s { broker = b; mails = s.mails ++ mail ∷ [] }

abbrev pub posted : Option Post → Message → Broker → Station → Station
posted none m b s = record s { broker = reject webhook_queue m b }
posted (some post) m b s = record s { broker = b; posts = s.posts ++ post ∷ [] }

abbrev pub if_sent {ℓ} : {A : Type ℓ} → Bool → Option A → Option A
if_sent true o = o
if_sent false o = none

abbrev pub or_zero : Option ℕ → ℕ
or_zero none = 0
or_zero (some n) = n

-- `fire_critical_alert`
abbrev pub fire_critical_alert : String → String → ℕ → Station → Station
fire_critical_alert body routing_key attempts s = record s {
  alerts = s.alerts ++ record { body = body; routing_key = routing_key; attempts = attempts } ∷ [];
}
