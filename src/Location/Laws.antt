-- ===== src/Location/Laws.antt =====
-- Which clients a location policy lets through.
use phantom_share.Prelude.{
  refl, not, is_some, ◌||◌, str_eq, eq_iff, Bool-cases, ◌≡◌, ◌⊎◌, String, Bool, true, false, ◌&&◌,
  none, some, List, [], ◌∷◌, arith, Option-cases, inl, inr,
}
use phantom_share.Result.{ok, value_error, bad_network, or_raise-bind-eq-ok}
use phantom_share.Sql.{exists}
use phantom_share.ClientIp.{Address, Network, IpText, is_in, normalize}
use phantom_share.Location.{
  Countries, Verdict, is_empty, country_check, in_cidrs, evaluate_at, evaluate,
}

-- Some element of a list has a property.
abbrev pub Any {ℓ} : {A : Type ℓ} → (A → Type 0) → List A → Type 0
Any P [] = ⊥
Any P (x ∷ xs) = P x ⊎ Any P xs

-- The text is a network that holds the address.
abbrev pub Holds : IpText → Address → String → Type 0
Holds ip a v = (n : Network) × (ip.ip_network v ≡ some n) × (is_in a n ≡ true)

-- The country is one of the list, or the database has an empty text for it.
abbrev pub IsListed : String → List String → Type 0
IsListed c countries = (c ≡ "") ⊎ Any (λ x. c ≡ x) countries

-- What a policy in mode "all" demands of an address: one of the networks, if there are any, and if
-- there are countries, a listed one, or none that is known where lookups do not fail closed.
pub record Admits (ip : IpText) (country_for_ip : Countries) (a : Address)
    (cidrs countries : List String) (closed : Bool) : Type 0 where
  pub by_cidr : (cidrs ≡ []) ⊎ Any (Holds ip a) cidrs
  pub by_country :
      (countries ≡ [])
      ⊎ ((c : String) × (country_for_ip a ≡ some c) × IsListed c countries)
      ⊎ ((closed ≡ false) × (country_for_ip a ≡ none))

exists-Any : (c : String) (xs : List String) → exists (str_eq c) xs ≡ true → Any (λ x. c ≡ x) xs
unfolding exists
exists-Any c [] h = cc
exists-Any c (x ∷ xs) h = elim (Bool-cases (str_eq c x)) [
  | inl same ↦ inl ((eq_iff c x).0 same)
  | inr other ↦ inr (exists-Any c xs (rw other at h))
]

str_eq-IsListed :
    (c : String) (xs : List String) → (str_eq c "" || exists (str_eq c) xs) ≡ true → IsListed c xs
str_eq-IsListed c xs h = elim (Bool-cases (str_eq c "")) [
  | inl same ↦ inl ((eq_iff c "").0 same)
  | inr other ↦ inr (exists-Any c xs (rw other at h))
]

module _ (ip : IpText) (country_for_ip : Countries) where
  in_cidrs-Any :
      (a : Address) (vs : List String)
      → in_cidrs ip country_for_ip a vs ≡ ok true
      → Any (Holds ip a) vs
  unfolding in_cidrs
  in_cidrs-Any a [] h = cc
  in_cidrs-Any a (v ∷ vs) h =
      let (n, read, h1) =
        or_raise-bind-eq-ok (ip.ip_network v) (value_error bad_network) _ {b = true} h in
      elim (Bool-cases (is_in a n)) [
        | inl inside ↦ inl (n, read, inside)
        | inr outside ↦ inr (in_cidrs-Any a vs (rw outside at h1))
      ]

  listed :
      (a : Address) (cs : List String) (closed : Bool)
      → country_check (country_for_ip a) cs ≡ true
      → (not (is_some (country_for_ip a)) && closed) ≡ false
      → ((c : String) × (country_for_ip a ≡ some c) × IsListed c cs)
        ⊎ ((closed ≡ false) × (country_for_ip a ≡ none))
  listed a cs closed h fail_open = elim (Option-cases (country_for_ip a)) [
    | inl unknown ↦ inr (rw unknown at fail_open, unknown)
    | inr (c, known) ↦ inl (c, known, str_eq-IsListed c cs (rw known at h))
  ]

  evaluate_at_cidrs :
      (a : Address) (x : String) (xs countries : List String) (closed : Bool) {v : Verdict}
      → evaluate_at ip country_for_ip a (x ∷ xs) countries "all" closed ≡ ok v
      → v.allowed ≡ true
      → in_cidrs ip country_for_ip a (x ∷ xs) ≡ ok true
  unfolding evaluate_at
  evaluate_at_cidrs a x xs [] closed h t = ground arith
  evaluate_at_cidrs a x xs (c ∷ cs) closed h t = ground arith

  evaluate_at_countries :
      (a : Address) (cidrs : List String) (c : String) (cs : List String) (closed : Bool)
      {v : Verdict}
      → evaluate_at ip country_for_ip a cidrs (c ∷ cs) "all" closed ≡ ok v
      → v.allowed ≡ true
      → (country_check (country_for_ip a) (c ∷ cs) ≡ true)
        × ((not (is_some (country_for_ip a)) && closed) ≡ false)
  unfolding evaluate_at
  evaluate_at_countries a [] c cs closed h t = (ground arith, ground arith)
  evaluate_at_countries a (x ∷ xs) c cs closed h t = (ground arith, ground arith)

  by_cidrs :
      (a : Address) (cidrs countries : List String) (closed : Bool) {v : Verdict}
      → evaluate_at ip country_for_ip a cidrs countries "all" closed ≡ ok v
      → v.allowed ≡ true
      → (cidrs ≡ []) ⊎ Any (Holds ip a) cidrs
  by_cidrs a [] countries closed h t = inl refl
  by_cidrs a (x ∷ xs) countries closed {v} h t =
      inr (in_cidrs-Any a (x ∷ xs) (evaluate_at_cidrs a x xs countries closed {v = v} h t))

  by_countries :
      (a : Address) (cidrs countries : List String) (closed : Bool) {v : Verdict}
      → evaluate_at ip country_for_ip a cidrs countries "all" closed ≡ ok v
      → v.allowed ≡ true
      → (countries ≡ [])
        ⊎ ((c : String) × (country_for_ip a ≡ some c) × IsListed c countries)
        ⊎ ((closed ≡ false) × (country_for_ip a ≡ none))
  by_countries a cidrs [] closed h t = inl refl
  by_countries a cidrs (c ∷ cs) closed {v} h t =
      let (checked, fail_open) = evaluate_at_countries a cidrs c cs closed {v = v} h t in
      inr (listed a (c ∷ cs) closed checked fail_open)

  -- In mode "all", a client that a policy with some list lets through has a valid address. If there
  -- are networks, one of them holds it. If there are countries, the GeoIP database gives the address
  -- one of them or an empty text, or it has no entry and lookups do not fail closed.
  pub evaluate-Admits :
      (client_ip : String) (cidrs countries : List String) (closed : Bool) {v : Verdict}
      → (is_empty cidrs && is_empty countries) ≡ false
      → evaluate ip country_for_ip client_ip cidrs countries "all" closed ≡ ok v
      → v.allowed ≡ true
      → (a : Address) × (normalize ip client_ip ≡ some a)
        × Admits ip country_for_ip a cidrs countries closed
  unfolding evaluate
  evaluate-Admits client_ip cidrs countries closed {v} some_list h t =
      elim (Option-cases (normalize ip client_ip)) [
        | inl bad ↦ absurd (denied bad)
        | inr (a, e) ↦
            let h1 = rw e at (rw some_list at h) in
            (
              a,
              e,
              record {
                by_cidr = by_cidrs a cidrs countries closed {v = v} h1 t;
                by_country = by_countries a cidrs countries closed {v = v} h1 t;
              },
            )
      ]
    where
      denied : normalize ip client_ip ≡ none → ⊥
      denied bad = ground (arith, bad)

  -- Where lookups fail closed, a policy with countries lets no client through whose country is unknown,
  -- in either mode and whatever networks it lists.
  pub evaluate_fail_closed :
      (client_ip : String) (cidrs : List String) (c : String) (cs : List String) (mode : String)
      (a : Address) {v : Verdict}
      → normalize ip client_ip ≡ some a
      → country_for_ip a ≡ none
      → evaluate ip country_for_ip client_ip cidrs (c ∷ cs) mode true ≡ ok v
      → (v.allowed ≡ false) × (v.reason ≡ some "GEOIP_LOOKUP_FAILED")
  unfolding evaluate evaluate_at
  evaluate_fail_closed client_ip [] c cs mode a valid unknown h = ground arith
  evaluate_fail_closed client_ip (x ∷ xs) c cs mode a valid unknown h = ground arith
