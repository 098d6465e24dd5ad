-- ===== src/Secrets/Manage.antt =====
-- The other routes of app/routers/secrets.py: the metadata of a secret, the list of an owner, the
-- deletion and the rotation of the key.
pub mod Deletion
use phantom_share.Prelude.{
  ℕ, ◌+◌, ◌-◌, ◌*◌, String, Bool, true, false, not, ◌&&◌, ◌||◌, Option, none, some, List, [], ◌∷◌,
  map, leb, ltb, ◌==◌, length, if◌then◌else◌,
}
use phantom_share.Text.{◌++◌ as ◌^◌}
use phantom_share.Tokens.{Signing}
use phantom_share.Result.{
  Exn, http, value_error, secret_not_found, Result, ok, err, ◌>>=◌, ◌>>◌, raise_if, or_raise,
}
use phantom_share.Sql.{select_one, select, count}
use phantom_share.Sql.Page.{order_by_desc, offset, limit}
use phantom_share.Schema.{
  Db, SecretRow, PolicyRow, Payload, num, str, secret_is, policy_of, delete_secrets,
}
use phantom_share.Permissions.{CurrentUser, require_owns_secret}
use phantom_share.Crypto.{Primitives, Draw}
use phantom_share.Audit.{Entry, insert_entry, log_critical}
use phantom_share.Keys.{rotate_key}
use phantom_share.Quota.{reconcile_user}
use phantom_share.Quota.Scripts.{Redis}
use phantom_share.Versions.Inserts.{Request}

pub record SecretInfo : Type 0 where
  pub exists : Bool
  pub created_at : ℕ
  pub expires_at : ℕ
  pub password_protected : Bool
  pub viewed : Bool
  pub view_count : ℕ
  pub max_views : ℕ
  pub current_version : ℕ
  pub payload_type : Payload
  pub location_restricted : Bool
  pub policy_version : ℕ

abbrev has_any {ℓ} : {A : Type ℓ} → List A → Bool
has_any [] = false
has_any (x ∷ xs) = true

-- `secret_info`
unfoldable pub secret_info : ℕ → Db → Result SecretInfo
secret_info secret_id db = do
  s ← or_raise (select_one (secret_is secret_id) db.secrets) (http 404 "Secret not found")
  p ← or_raise (select_one (policy_of secret_id) db.policies) (http 404 "Secret not found")
  ok (record {
    exists = true;
    created_at = s.created_at;
    expires_at = s.expires_at;
    password_protected = s.password_protected;
    viewed = s.viewed;
    view_count = s.view_count;
    max_views = s.max_views;
    current_version = s.current_version;
    payload_type = s.payload_type;
    location_restricted = has_any p.allowed_cidrs || has_any p.allowed_countries;
    policy_version = p.policy_version;
  })

pub record SecretListItem : Type 0 where
  pub id : ℕ
  pub created_at : ℕ
  pub expires_at : ℕ
  pub viewed : Bool
  pub view_count : ℕ
  pub max_views : ℕ
  pub password_protected : Bool
  pub notify_on_view : Bool

pub record SecretListResponse : Type 0 where
  pub items : List SecretListItem
  pub total : ℕ
  pub page : ℕ
  pub page_size : ℕ

abbrev is_owner : ℕ → Option ℕ → Bool
is_owner user none = false
is_owner user (some o) = o == user

abbrev agrees : Option Bool → Bool → Bool
agrees none b = true
agrees (some true) b = b
agrees (some false) b = not b

-- The WHERE of the list: the owner and the two filters.
abbrev pub is_listed : ℕ → Option Bool → Option Bool → ℕ → SecretRow → Bool
is_listed user viewed expired now s =
    is_owner user s.owner_id && (agrees viewed s.viewed && agrees expired (ltb s.expires_at now))

abbrev item : SecretRow → SecretListItem
item s = record {
  id = s.id;
  created_at = s.created_at;
  expires_at = s.expires_at;
  viewed = s.viewed;
  view_count = s.view_count;
  max_views = s.max_views;
  password_protected = s.password_protected;
  notify_on_view = s.notify_on_view;
}

-- `list_secrets`; the route admits pages from 1 on. `ties` is how the database puts secrets of one
-- instant.
unfoldable pub list_secrets :
    (SecretRow → SecretRow → Bool)
    → ℕ
    → ℕ
    → Option Bool
    → Option Bool
    → ℕ
    → CurrentUser
    → Db
    → SecretListResponse
unfolding order_by_desc offset limit
list_secrets ties page page_size viewed expired now who db = record {
  items = map item (
      limit page_size (
        offset ((page - 1) * page_size) (
          order_by_desc ties (λ s. s.created_at)
            (select (is_listed who.id viewed expired now) db.secrets))));
  total = count (is_listed who.id viewed expired now) db.secrets;
  page = page;
  page_size = page_size;
}

abbrev pub deleted_entry : ℕ → CurrentUser → String → Entry
deleted_entry secret_id who client_ip = record {
  action = "secret_deleted";
  actor_id = some who.id;
  actor_ip = some client_ip;
  secret_id = some secret_id;
  metadata = ("reason", str "owner_request") ∷ [];
}

-- The transaction of `delete_secret`. The row is locked, so the DELETE finds it.
unfoldable pub delete_owned : ℕ → Request → CurrentUser → Db → Result Db
delete_owned secret_id request who db = do
  row ← or_raise (select_one (secret_is secret_id) db.secrets) (http 404 "Secret not found")
  require_owns_secret row.owner_id who
  db1 ← insert_entry "critical" (deleted_entry secret_id who request.client_ip) request.now db
  ok (delete_secrets (secret_is secret_id) request.now db1)

abbrev pub reconciled :
    CurrentUser → Option Redis → Result Db → Db → Result (Unit {0}) × (Db × Option Redis)
reconciled who redis (err e) db = (err e, (db, redis))
reconciled who redis (ok db') db = (ok tt, (db', (reconcile_user who.id db' redis).1))

-- `delete_secret`, and the reconciliation of the caller's quota, whose failure is ignored.
unfoldable pub delete_secret :
    ℕ → Request → CurrentUser → Db → Option Redis → Result (Unit {0}) × (Db × Option Redis)
unfolding delete_owned reconcile_user
delete_secret secret_id request who db redis =
    reconciled who redis (delete_owned secret_id request who db) db

pub record KeyRotateResponse : Type 0 where
  pub secret_id : ℕ
  pub new_key_version : ℕ
  pub rotated_at : ℕ

-- The ValueErrors of `rotate_key`: only the text of one of them says "not found". It names the
-- secret.
abbrev rotate_failure {ℓ} : {A : Type ℓ} → String → Exn → Result A
rotate_failure id_text (value_error secret_not_found) =
    err (http 404 ("Secret " ^ (id_text ^ " not found")))
rotate_failure id_text (value_error f) = err (http 500 "Key rotation failed")
rotate_failure id_text e = err e

abbrev pub rotated_entry : ℕ → CurrentUser → String → ℕ → Entry
rotated_entry secret_id who client_ip new_version = record {
  action = "key_rotated";
  actor_id = some who.id;
  actor_ip = some client_ip;
  secret_id = some secret_id;
  metadata = ("new_version", num new_version) ∷ [];
}

abbrev pub answer_rotation :
    Signing → ℕ → Request → CurrentUser → Result (ℕ × Db) → Db → Result KeyRotateResponse × Db
answer_rotation signing secret_id request who (err e) db =
    (rotate_failure (signing.uuid_str secret_id) e, db)
answer_rotation signing secret_id request who (ok (new_version, db')) db = (
  ok (record { secret_id = secret_id; new_key_version = new_version; rotated_at = request.now }),
  log_critical (rotated_entry secret_id who request.client_ip new_version) request.now db',
)

-- `rotate_secret_key`: the check of the owner, the transaction of `rotate_key`, and an audit entry
-- on a connection of its own.
unfoldable pub rotate_secret_key :
    Primitives → Signing → ℕ → Request → CurrentUser → Draw → Db → Result KeyRotateResponse × Db
unfolding rotate_key log_critical
rotate_secret_key prims signing secret_id request who draw db =
    answer_rotation signing secret_id request who
      (do
        row ← or_raise (select_one (secret_is secret_id) db.secrets) (http 404 "Secret not found")
        require_owns_secret row.owner_id who
        rotate_key prims secret_id draw request.now db)
      db
