-- ===== src/Schema/Rows.antt =====
-- The rows of the tables in database/migrations.
use phantom_share.Prelude.{ℕ, String, Bool, Option, List}

pub data Payload : Type 0 where
  text file : Payload

pub record UserRow : Type 0 where
  pub id : ℕ
  pub email : String
  pub username : String
  pub role : String
  pub is_active : Bool
  pub is_verified : Bool
  pub password_hash : String
  pub created_at : ℕ
  pub updated_at : ℕ
  pub delete_after : Option ℕ

pub record SessionRow : Type 0 where
  pub id : ℕ
  pub user_id : ℕ
  pub refresh_token_hash : String
  pub user_agent : String
  pub ip_address : String
  pub expires_at : ℕ
  pub revoked : Bool

pub record VerificationRow : Type 0 where
  pub user_id : ℕ
  pub email : String
  pub token_hash : String
  pub expires_at : ℕ
  pub requested_at : ℕ

pub record PendingRow : Type 0 where
  pub id : ℕ
  pub user_id : ℕ
  pub secret_id : ℕ
  pub object_key : String
  pub reservation_id : ℕ
  pub plaintext_size : ℕ
  pub expires_at : ℕ

pub record SecretRow : Type 0 where
  pub id : ℕ
  pub content : Option String
  pub nonce : Option String
  pub password_protected : Bool
  pub access_password_hash : Option String
  pub ttl_hours : ℕ
  pub created_at : ℕ
  pub expires_at : ℕ
  pub viewed : Bool
  pub owner_id : Option ℕ
  pub max_views : ℕ
  pub view_count : ℕ
  pub signed_token : Option String
  pub notify_on_view : Bool
  pub notify_email : Option String
  pub webhook_url : Option String
  pub email_restricted : Bool
  pub current_version : ℕ
  pub payload_type : Payload
  pub updated_at : ℕ

pub record KeyRow : Type 0 where
  pub secret_id : ℕ
  pub wrapped_dek : String
  pub dek_nonce : String
  pub version : ℕ
  pub rotated_at : Option ℕ

pub record VersionRow : Type 0 where
  pub secret_id : ℕ
  pub version : ℕ
  pub payload_type : Payload
  pub content : Option String
  pub nonce : Option String
  pub key_version : Option ℕ
  pub plaintext_size : ℕ
  pub created_by : Option ℕ
  pub change_note : Option String
  pub object_key : Option String
  pub created_at : ℕ
  pub encrypted_size : ℕ
  pub filename_ciphertext : Option String
  pub filename_nonce : Option String
  pub media_type : Option String
  pub content_sha256 : Option String
  pub clamav_version : Option String
  pub scanned_at : Option ℕ

pub record PolicyRow : Type 0 where
  pub secret_id : ℕ
  pub allowed_cidrs : List String
  pub allowed_countries : List String
  pub location_policy_mode : String
  pub geoip_fail_closed : Bool
  pub policy_version : ℕ

pub record RecipientRow : Type 0 where
  pub secret_id : ℕ
  pub email : String

pub record TrackingRow : Type 0 where
  pub secret_id : ℕ
  pub owner_id : ℕ
  pub retain_until : ℕ

pub record ViewRow : Type 0 where
  pub secret_id : ℕ
  pub viewer_id : Option ℕ
  pub viewer_email : Option String
  pub email_verified : Bool
  pub viewed_at : ℕ
  pub content_version : Option ℕ

pub record OutboxRow : Type 0 where
  pub object_key : String
  pub user_id : Option ℕ
  pub billed_bytes : ℕ
  pub attempts : ℕ
  pub next_attempt_at : ℕ
  pub processed_at : Option ℕ

pub record QuotaRow : Type 0 where
  pub user_id : ℕ
  pub max_active_secrets : Option ℕ
  pub max_file_bytes : Option ℕ

-- A value of an audit entry's metadata.
pub data Json : Type 0 where
  num : ℕ → Json
  bool : Bool → Json
  str : String → Json
  null : Json
  counts : List (String × ℕ) → Json

pub record AuditRow : Type 0 where
  pub action : String
  pub actor_id : Option ℕ
  pub actor_ip : Option String
  pub severity : String
  pub secret_id : Option ℕ
  pub metadata : List (String × Json)
  pub created_at : ℕ
