-- ===== src/Notifications/Weights.antt =====
-- The weight of messages, and what a delivery and a retry do to it.
use phantom_share.Prelude.{
  Bool-cases, inl, inr, ℕ, ◌+◌, ◌≡◌, refl, Bool, true, false, Option, none, some, List, [], ◌∷◌,
  ◌++◌, arith, ltb, String,
}
use phantom_share.Amqp.{Message}
use phantom_share.Notifications.Messages.{Alert, if_sent, max_retries}
use phantom_share.Notifications.Lanes.{Lane, consumed, consume_next, retry_message}

abbrev pub weigh {ℓ} : {A : Type ℓ} → (A → ℕ) → List A → ℕ
weigh f [] = 0
weigh f (x ∷ xs) = f x + weigh f xs

pub weigh-append {ℓ} :
    {A : Type ℓ} (f : A → ℕ) (xs ys : List A) → weigh f (xs ++ ys) ≡ weigh f xs + weigh f ys
weigh-append f [] ys = omega arith
weigh-append f (x ∷ xs) ys = omega (arith, weigh-append f xs ys)

-- A message weighs what its body does.
abbrev pub weigh_bodies : (String → ℕ) → List Message → ℕ
weigh_bodies w ms = weigh (λ (m : Message). w m.body) ms

abbrev pub lane_weight : (String → ℕ) → Lane → ℕ
lane_weight w l = weigh_bodies w l.waiting + weigh_bodies w l.failed

pub weigh_last :
    (w : String → ℕ) (ms : List Message) (m : Message)
    → weigh_bodies w (ms ++ m ∷ []) ≡ weigh_bodies w ms + w m.body
weigh_last w ms m = omega (arith, weigh-append (λ (x : Message). w x.body) ms (m ∷ []))

-- What is sent weighs what its message did.
abbrev pub Fits {ℓ} : {A : Type ℓ} → (A → ℕ) → (String → ℕ) → (Message → Option A) → Type ℓ
Fits {A = A} f w g = (m : Message) (a : A) → g m ≡ some a → f a ≡ w m.body

weigh-consumed {ℓ} :
    {A : Type ℓ} (f : A → ℕ) (w : String → ℕ) (o : Option A) (m : Message)
    (ms failed : List Message)
    → ((a : A) → o ≡ some a → f a ≡ w m.body)
    → lane_weight w (consumed o m ms failed).0 + weigh f (consumed o m ms failed).1
      ≡ w m.body + weigh_bodies w ms + weigh_bodies w failed
weigh-consumed f w none m ms failed h = omega (arith, weigh_last w failed m)
weigh-consumed f w (some a) m ms failed h = omega (arith, h a refl)

pub weigh-consume_next {ℓ} :
    {A : Type ℓ} (f : A → ℕ) (w : String → ℕ) (g : Message → Option A)
    (waiting failed : List Message)
    → Fits f w g
    → lane_weight w (consume_next g waiting failed).0 + weigh f (consume_next g waiting failed).1
      ≡ weigh_bodies w waiting + weigh_bodies w failed
weigh-consume_next f w g [] failed h = omega arith
weigh-consume_next f w g (m ∷ ms) failed h =
    omega (arith, weigh-consumed f w (g m) m ms failed (h m))

pub Fits-if_sent {ℓ} :
    {A : Type ℓ} (f : A → ℕ) (w : String → ℕ) (g : Message → Option A) (sent : Bool)
    → Fits f w g
    → Fits f w (λ m. if_sent sent (g m))
Fits-if_sent f w g true h = h
Fits-if_sent f w g false h = λ m a e. cc

pub weigh-retry_message :
    (f : Alert → ℕ) (w : String → ℕ) (key : String) (accepted : Bool) (n : ℕ) (m : Message)
    (waiting ms : List Message)
    → f (record { body = m.body; routing_key = key; attempts = n }) ≡ w m.body
    → lane_weight w (retry_message key accepted n m waiting ms).lane
        + weigh f (retry_message key accepted n m waiting ms).alerts
      ≡ weigh_bodies w waiting + (w m.body + weigh_bodies w ms)
weigh-retry_message f w key true n m waiting ms h = elim (Bool-cases (ltb max_retries n)) [
  | inl late ↦ rw late (omega (arith, h))
  | inr early ↦ rw early (omega (arith, weigh_last w waiting (record m { attempt = some n })))
]
weigh-retry_message f w key false n m waiting ms h = elim (Bool-cases (ltb max_retries n)) [
  | inl late ↦ rw late (omega (arith, h))
  | inr early ↦ rw early (omega arith)
]
