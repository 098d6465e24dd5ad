-- ===== src/Secrets/Access.antt =====
-- app/routers/secret_access.py: a new location policy, with the share token that goes with it.
pub mod Revocation
use phantom_share.Prelude.{ℕ, ◌+◌, String, Bool, Option, none, some, List, [], ◌∷◌}
use phantom_share.Text.{◌++◌ as ◌^◌}
use phantom_share.Result.{Exn, http, Result, ok, err, ◌>>=◌, ◌>>◌, or_raise}
use phantom_share.Sql.{select_one, update}
use phantom_share.Schema.{
  Db, SecretRow, PolicyRow, Payload, text, file, num, str, secret_is, policy_of,
}
use phantom_share.Permissions.{CurrentUser, require_owns_secret}
use phantom_share.Audit.{Entry, log_last}
use phantom_share.Tokens.{Signing, create_signed_token}
use phantom_share.Versions.Inserts.{Request}

pub record LocationPolicyUpdate : Type 0 where
  pub allowed_cidrs : List String
  pub allowed_countries : List String
  pub location_policy_mode : String
  pub geoip_fail_closed : Bool

pub record LocationPolicyResponse : Type 0 where
  pub secret_id : ℕ
  pub allowed_cidrs : List String
  pub allowed_countries : List String
  pub location_policy_mode : String
  pub geoip_fail_closed : Bool
  pub policy_version : ℕ
  pub signed_token : String
  pub share_url : String

-- The SET of the UPDATE of secret_access_policies, and that of secrets.
abbrev pub with_policy : LocationPolicyUpdate → ℕ → PolicyRow → PolicyRow
with_policy body version p = record {
  secret_id = p.secret_id;
  allowed_cidrs = body.allowed_cidrs;
  allowed_countries = body.allowed_countries;
  location_policy_mode = body.location_policy_mode;
  geoip_fail_closed = body.geoip_fail_closed;
  policy_version = version;
}

abbrev pub with_token : String → ℕ → SecretRow → SecretRow
with_token token now r = record r { signed_token = some token; updated_at = now }

abbrev pub policy_entry : ℕ → CurrentUser → String → ℕ → Entry
policy_entry secret_id who client_ip version = record {
  action = "secret_updated";
  actor_id = some who.id;
  actor_ip = some client_ip;
  secret_id = some secret_id;
  metadata = ("change", str "location_policy") ∷ ("policy_version", num version) ∷ [];
}

abbrev suffix : Payload → String
suffix text = ""
suffix file = "/file"

-- The two UPDATEs.
unfoldable pub write_policy : ℕ → LocationPolicyUpdate → ℕ → String → ℕ → Db → Db
write_policy secret_id body version token now db = record db {
  policies = update (policy_of secret_id) (with_policy body version) db.policies;
  secrets = update (secret_is secret_id) (with_token token now) db.secrets;
}

-- `update_location_policy`
unfoldable pub update_location_policy :
    Signing
    → String
    → ℕ
    → LocationPolicyUpdate
    → Request
    → CurrentUser
    → Db
    → Result (LocationPolicyResponse × Db)
unfolding write_policy
update_location_policy signing base_url secret_id body request who db = do
  secret ← or_raise (select_one (secret_is secret_id) db.secrets) (http 404 "Secret not found")
  policy ← or_raise (select_one (policy_of secret_id) db.policies) (http 404 "Secret not found")
  require_owns_secret secret.owner_id who
  let version = policy.policy_version + 1
  let token = create_signed_token signing secret_id 0 version (some secret.expires_at) request.now
  ok (
    record {
      secret_id = secret_id;
      allowed_cidrs = body.allowed_cidrs;
      allowed_countries = body.allowed_countries;
      location_policy_mode = body.location_policy_mode;
      geoip_fail_closed = body.geoip_fail_closed;
      policy_version = version;
      signed_token = token;
      share_url =
          base_url
          ^ ("/api/secrets/"
              ^ (signing.uuid_str secret_id ^ (suffix secret.payload_type ^ ("?token=" ^ token))));
    },
    log_last "info" (policy_entry secret_id who request.client_ip version) request.now db
        (write_policy secret_id body version token request.now db),
  )
