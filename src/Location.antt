-- ===== src/Location.antt =====
-- app/services/location_policy_service.py: CIDR and country policies of a secret.
pub mod Laws
use phantom_share.Prelude.{
  ℕ, ◌≡◌, String, Bool, true, false, not, ◌&&◌, ◌||◌, Option, none, some, List, [], ◌∷◌, map, ◌==◌,
  str_eq, is_some, if◌then◌else◌,
}
use phantom_share.Result.{
  Exn, http, location_denied, value_error, bad_uuid, bad_network, Result, ok, err, ◌>>=◌, ◌>>◌,
  raise_if, or_raise,
}
use phantom_share.Sql.{select_one, exists}
use phantom_share.Schema.{Db, PolicyRow, policy_of, num, str, null, Json}
use phantom_share.Text.{strip}
use phantom_share.ClientIp.{Address, Network, IpText, is_in, normalize}
use phantom_share.Tokens.{Signing, verify_signed_token}
use phantom_share.Audit.{log_warning}

-- `country_for_ip` on the local GeoIP database: `none` where there is no database or no entry.
abbrev pub Countries : Type 0
Countries = Address → Option String

-- The triple of `evaluate`.
pub record Verdict : Type 0 where
  pub allowed : Bool
  pub country : Option String
  pub reason : Option String

abbrev pub is_empty : List String → Bool
is_empty [] = true
is_empty (_ ∷ _) = false

-- `country in allowed_countries if country else True`
abbrev pub country_check : Option String → List String → Bool
country_check none allowed = true
country_check (some c) allowed = str_eq c "" || exists (str_eq c) allowed

-- `all(checks) if mode == "all" else any(checks)`, on the checks that were made.
abbrev pub combine : String → Option Bool → Option Bool → Bool
combine mode none none = str_eq mode "all"
combine mode (some a) none = a
combine mode none (some b) = b
combine mode (some a) (some b) = if str_eq mode "all" then a && b else a || b

abbrev pub denial : Bool → Bool → String
denial cidrs countries =
    if cidrs && countries
    then "LOCATION_NOT_ALLOWED"
    else if cidrs
    then "CIDR_NOT_ALLOWED"
    else "COUNTRY_NOT_ALLOWED"

-- The pair (allowed, country, reason) from the two checks.
abbrev pub verdict : Bool → Option String → Bool → Bool → Verdict
verdict allowed country cidrs countries =
    if allowed
    then record { allowed = true; country = country; reason = none }
    else record { allowed = false; country = country; reason = some (denial cidrs countries) }

abbrev pub refused : String → Verdict
refused reason = record { allowed = false; country = none; reason = some reason }

abbrev pub json_of : Option String → Json
json_of none = null
json_of (some s) = str s

abbrev pub reason_of : Option String → String
reason_of none = ""
reason_of (some s) = s

abbrev pub matches : Result ℕ → ℕ → Result (Unit {0})
matches named secret_id = do
  id ← named
  raise_if (not (id == secret_id)) (http 403 "Share token does not match this secret")

module _ (ip : IpText) (country_for_ip : Countries) where
  -- `any(address in ip_network(value, strict=False) for value in allowed_cidrs)`
  unfoldable pub in_cidrs : Address → List String → Result Bool
  in_cidrs address [] = ok false
  in_cidrs address (v ∷ vs) = do
    let rest = in_cidrs address vs
    network ← or_raise (ip.ip_network v) (value_error bad_network)
    if is_in address network then ok true else rest

  -- The address is known, and some list is not empty.
  unfoldable pub evaluate_at : Address → List String → List String → String → Bool → Result Verdict
  unfolding in_cidrs
  evaluate_at address cidrs countries mode geoip_fail_closed = do
    inside ← in_cidrs address cidrs
    let country = if is_empty countries then none else country_for_ip address
    let cidr_check = if is_empty cidrs then none else some inside
    let lookup_check = if is_empty countries then none else some (country_check country countries)
    ok (
        if not (is_empty countries) && (not (is_some country) && geoip_fail_closed)
        then refused "GEOIP_LOOKUP_FAILED"
        else verdict (combine mode cidr_check lookup_check) country (not (is_empty cidrs))
            (not (is_empty countries)))

  abbrev pub evaluate_from :
      Option Address → List String → List String → String → Bool → Result Verdict
  evaluate_from none cidrs countries mode closed = ok (refused "CLIENT_IP_INVALID")
  evaluate_from (some a) cidrs countries mode closed = evaluate_at a cidrs countries mode closed

  unfoldable pub evaluate : String → List String → List String → String → Bool → Result Verdict
  unfolding evaluate_at
  evaluate client_ip cidrs countries mode geoip_fail_closed =
      if is_empty cidrs && is_empty countries
      then ok (record { allowed = true; country = none; reason = none })
      else evaluate_from (normalize ip client_ip) cidrs countries mode geoip_fail_closed

  -- The check of a token that was given: it names this secret and the current policy version.
  unfoldable pub check_token : Signing → ℕ → Option String → ℕ → ℕ → Result (Unit {0})
  check_token signing secret_id none policy_version now = ok tt
  check_token signing secret_id (some token) policy_version now =
      if str_eq token ""
      then ok tt
      else matches
          (verify_signed_token signing token (some policy_version) now >>= λ text.
            or_raise (signing.uuid_of text) (value_error bad_uuid))
          secret_id

  unfoldable pub read_policy :
      Signing → ℕ → Option String → String → ℕ → Db → Result (PolicyRow × Verdict)
  unfolding check_token evaluate
  read_policy signing secret_id token client_ip now db = do
    row ← or_raise (select_one (policy_of secret_id) db.policies) (http 404 "Secret not found")
    check_token signing secret_id token row.policy_version now
    v ←
        evaluate client_ip row.allowed_cidrs (map strip row.allowed_countries)
          row.location_policy_mode row.geoip_fail_closed
    ok (row, v)

  -- A denial is logged on a connection of its own and raised.
  abbrev pub conclude : ℕ → String → ℕ → Result (PolicyRow × Verdict) → Db → Result ℕ × Db
  conclude secret_id client_ip now (err e) db = (err e, db)
  conclude secret_id client_ip now (ok (row, v)) db =
      if v.allowed then (ok row.policy_version, db) else (
        err (location_denied (reason_of v.reason)),
        log_warning
            (record {
              action = "invalid_token";
              actor_id = none;
              actor_ip = some client_ip;
              secret_id = some secret_id;
              metadata =
                  ("reason", json_of v.reason)
                  ∷ ("country", json_of v.country)
                  ∷ ("policy_version", num row.policy_version)
                  ∷ [];
            })
            now db,
      )

  unfoldable pub authorize : Signing → ℕ → Option String → String → ℕ → Db → Result ℕ × Db
  unfolding read_policy
  authorize signing secret_id token client_ip now db =
      conclude secret_id client_ip now (read_policy signing secret_id token client_ip now db) db
