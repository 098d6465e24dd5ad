-- ===== src/Result.antt =====
-- What a request handler or a service raises, and the chain of steps that may raise.
use phantom_share.Prelude.{
  ◌⊎◌, inl, inr, ℕ, String, Bool, true, false, Option, none, some, ◌≡◌, refl, ap,
}

-- Why a `ValueError` was raised: by key_service.rotate_key, by key_service.get_dek_for_secret and
-- by the functions of helper.py. `bad_uuid` is `UUID(text)` on a text that is no
-- UUID, and `bad_network` is `ip_network(text)` on one that is no network.
pub data Fault : Type 0 where
  secret_not_found no_key unwrap_failed decryption_failed bad_base64 bad_nonce : Fault
  bad_uuid bad_network : Fault
  bad_file_header truncated_file : Fault

-- An integer, as the difference of two numbers.
pub record Amount : Type 0 where
  pub up : ℕ
  pub down : ℕ

-- `http` is an HTTPException with its status and its text, and the next three are those whose
-- detail is a dict.
pub data Exn : Type 0 where
  http : ℕ → String → Exn
  version_conflict : ℕ → Exn
  quota_exceeded : String → Amount → Amount → ℕ → ℕ → Exn
  location_denied : String → Exn
  rate_limited : ℕ → ℕ → ℕ → Exn
  value_error : Fault → Exn
  type_error runtime_error database_error : Exn
  invalid_tag struct_error storage_error : Exn

pub data Result {ℓ} (A : Type ℓ) : Type ℓ where
  ok : A → Result A
  err : Exn → Result A

-- `if bad: raise e`
abbrev pub raise_if : Bool → Exn → Result (Unit {0})
raise_if true e = err e
raise_if false e = ok tt

-- `if not row: raise e`
abbrev pub or_raise {ℓ} : {A : Type ℓ} → Option A → Exn → Result A
or_raise none e = err e
or_raise (some a) e = ok a

-- An exception skips what follows it.
infixl 5 ◌>>=◌
abbrev pub ◌>>=◌ {ℓ κ} : {A : Type ℓ} {B : Type κ} → Result A → (A → Result B) → Result B
err raised >>= rest = err raised
ok value >>= rest = rest value

-- The same for a step that is run for its guard alone.
infixl 5 ◌>>◌
abbrev pub ◌>>◌ {ℓ} : {A : Type ℓ} → Result (Unit {0}) → Result A → Result A
guard >> rest = guard >>= (λ _. rest)

-- Where the whole returned, its first step did, and so did the rest on what that step returned.
pub >>=-eq-ok {ℓ κ} :
    {A : Type ℓ} {B : Type κ} (step : Result A) (rest : A → Result B) {b : B}
    → (step >>= rest) ≡ ok b
    → (a : A) × (step ≡ ok a) × (rest a ≡ ok b)
>>=-eq-ok (err raised) rest h = cc
>>=-eq-ok (ok value) rest h = (value, refl, h)

pub raise_if-eq-ok : (b : Bool) (e : Exn) {u : Unit {0}} → raise_if b e ≡ ok u → b ≡ false
raise_if-eq-ok true e h = cc
raise_if-eq-ok false e h = refl

pub or_raise-eq-ok {ℓ} :
    {A : Type ℓ} (o : Option A) (e : Exn) {a : A} → or_raise o e ≡ ok a → o ≡ some a
or_raise-eq-ok none e h = cc
or_raise-eq-ok (some a) e h = cc

pub ok-injective {ℓ} : {A : Type ℓ} {a b : A} → ok a ≡ ok b → a ≡ b
ok-injective h = cc

-- To split on a computed result and keep the equation.
pub Result-cases {ℓ} :
    {A : Type ℓ} (r : Result A) → ((e : Exn) × (r ≡ err e)) ⊎ ((a : A) × (r ≡ ok a))
Result-cases (err e) = inl (e, refl)
Result-cases (ok a) = inr (a, refl)

-- The state that an operation leaves, where it returns.
pub ok-state {ℓ κ} : {A : Type ℓ} {S : Type κ} {p q : A × S} → ok p ≡ ok q → p.1 ≡ q.1
ok-state h = ap (λ r. r.1) (ok-injective h)

pub ok-value {ℓ κ} : {A : Type ℓ} {S : Type κ} {p q : A × S} → ok p ≡ ok q → p.0 ≡ q.0
ok-value h = ap (λ r. r.0) (ok-injective h)

-- A guard that let the rest go on, and a look-up that found something.
pub raise_if-bind-eq-ok {ℓ} :
    {A : Type ℓ} (b : Bool) (e : Exn) (m : Result A) {a : A}
    → (raise_if b e >> m) ≡ ok a
    → (b ≡ false) × (m ≡ ok a)
raise_if-bind-eq-ok true e m h = cc
raise_if-bind-eq-ok false e m h = (refl, h)

pub or_raise-bind-eq-ok {ℓ κ} :
    {A : Type ℓ} {B : Type κ} (o : Option A) (e : Exn) (f : A → Result B) {b : B}
    → (or_raise o e >>= f) ≡ ok b
    → (a : A) × (o ≡ some a) × (f a ≡ ok b)
or_raise-bind-eq-ok none e f h = cc
or_raise-bind-eq-ok (some a) e f h = (a, refl, h)
