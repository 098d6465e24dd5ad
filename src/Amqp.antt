-- ===== src/Amqp.antt =====
-- What a RabbitMQ broker holds and what the calls of aio_pika do to it: direct exchanges, queues and
-- their dead letters. A message that is taken is acknowledged or rejected before the next call.
use phantom_share.Prelude.{
  String, Bool, true, false, ◌&&◌, Option, none, some, List, [], ◌∷◌, ◌++◌, str_eq, ℕ,
  if◌then◌else◌,
}
use phantom_share.Result.{Result, ok, err, runtime_error}
use phantom_share.Sql.{select_one, insert, update, exists}

-- A message with its header "x-retry-attempt".
pub record Message : Type 0 where
  pub body : String
  pub attempt : Option ℕ

-- The arguments "x-dead-letter-exchange" and "x-dead-letter-routing-key".
pub record DeadLetter : Type 0 where
  pub exchange : String
  pub routing_key : String

pub record Queue : Type 0 where
  pub name : String
  pub arguments : Option DeadLetter
  pub messages : List Message

pub record Binding : Type 0 where
  pub queue : String
  pub exchange : String
  pub routing_key : String

pub record Broker : Type 0 where
  pub exchanges : List String
  pub queues : List Queue
  pub bindings : List Binding

abbrev pub queue_is : String → Queue → Bool
queue_is name q = str_eq q.name name

abbrev same_arguments : Option DeadLetter → Option DeadLetter → Bool
same_arguments none none = true
same_arguments (some a) (some b) =
    str_eq a.exchange b.exchange && str_eq a.routing_key b.routing_key
same_arguments _ _ = false

unfoldable pub declare_exchange : String → Broker → Broker
declare_exchange name b =
    if exists (str_eq name) b.exchanges then b else record b { exchanges = insert name b.exchanges }

-- A queue that is there is left alone where its arguments are those of the call, and refused
-- otherwise.
unfoldable pub declare_queue : String → Option DeadLetter → Broker → Result Broker
declare_queue name arguments b = elim (select_one (queue_is name) b.queues) [
  | none ↦ ok (record b {
    queues = insert (record { name = name; arguments = arguments; messages = [] }) b.queues;
  })
  | some q ↦ if same_arguments q.arguments arguments then ok b else err runtime_error
]

abbrev binding_is : String → String → String → Binding → Bool
binding_is queue exchange routing_key x =
    str_eq x.queue queue && (str_eq x.exchange exchange && str_eq x.routing_key routing_key)

unfoldable pub bind : String → String → String → Broker → Broker
bind queue exchange routing_key b =
    if exists (binding_is queue exchange routing_key) b.bindings then b else record b {
      bindings =
          insert (record { queue = queue; exchange = exchange; routing_key = routing_key })
            b.bindings;
    }

abbrev put : Message → Queue → Queue
put m q = record q { messages = q.messages ++ m ∷ [] }

abbrev is_bound : String → String → List Binding → Queue → Bool
is_bound exchange routing_key bindings q = exists (binding_is q.name exchange routing_key) bindings

-- A direct exchange puts a message into each queue that is bound with its routing key.
unfoldable pub route : String → String → Message → Broker → Broker
route exchange routing_key m b = record b {
  queues = update (is_bound exchange routing_key b.bindings) (put m) b.queues;
}

abbrev left : List Message → Queue → Queue
left ms q = record q { messages = ms }

-- The first message of a queue, taken from it.
unfoldable pub get : String → Broker → Option (Message × Broker)
get name b = elim (select_one (queue_is name) b.queues) [
  | none ↦ none
  | some q ↦ elim q.messages [
    | [] ↦ none
    | m ∷ ms ↦ some (m, record b { queues = update (queue_is name) (left ms) b.queues })
  ]
]

abbrev bury : Option DeadLetter → Message → Broker → Broker
bury none m b = b
bury (some d) m b = route d.exchange d.routing_key m b

-- `reject(requeue=False)` of a message that was taken from a queue: its dead letter.
unfoldable pub reject : String → Message → Broker → Broker
unfolding route
reject name m b = elim (select_one (queue_is name) b.queues) [
  | none ↦ b
  | some q ↦ bury q.arguments m b
]
