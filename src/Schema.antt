-- ===== src/Schema.antt =====
-- The tables of database/migrations and what PostgreSQL itself does to them: the columns that the
-- application reads or writes, the cascades of a deletion, and the triggers. An id (UUID) is a
-- number that is only compared, an instant is a number of microseconds.
mod Rows
pub use Rows.*
use phantom_share.Prelude.{
  ℕ, ◌+◌, ◌*◌, String, Bool, ◌&&◌, Option, none, some, List, [], ◌∷◌, ◌++◌, ◌==◌, leb,
  if◌then◌else◌, str_eq,
}
use phantom_share.Text.{ci_eq}
use phantom_share.Sql.{select, insert, update, delete, exists}

-- The tables, and which texts the cast `::inet` of PostgreSQL takes.
pub record Db : Type 0 where
  pub is_inet : String → Bool
  pub users : List UserRow
  pub secrets : List SecretRow
  pub secret_keys : List KeyRow
  pub secret_versions : List VersionRow
  pub policies : List PolicyRow
  pub recipients : List RecipientRow
  pub tracking : List TrackingRow
  pub views : List ViewRow
  pub outbox : List OutboxRow
  pub quotas : List QuotaRow
  pub audit_logs : List AuditRow
  pub sessions : List SessionRow
  pub verifications : List VerificationRow
  pub pending_uploads : List PendingRow

abbrev pub empty_db : Db
empty_db = record {
  is_inet = λ _. Bool.true;
  users = [];
  secrets = [];
  secret_keys = [];
  secret_versions = [];
  policies = [];
  recipients = [];
  tracking = [];
  views = [];
  outbox = [];
  quotas = [];
  audit_logs = [];
  sessions = [];
  verifications = [];
  pending_uploads = [];
}

-- `WHERE id = %s`, and the same on each table that refers to a secret.
abbrev pub secret_is : ℕ → SecretRow → Bool
secret_is id r = r.id == id

abbrev pub key_of : ℕ → KeyRow → Bool
key_of id r = r.secret_id == id

abbrev pub key_is : ℕ → ℕ → KeyRow → Bool
key_is id v r = r.secret_id == id && r.version == v

abbrev pub version_of : ℕ → VersionRow → Bool
version_of id r = r.secret_id == id

abbrev pub version_is : ℕ → ℕ → VersionRow → Bool
version_is id v r = r.secret_id == id && r.version == v

abbrev pub policy_of : ℕ → PolicyRow → Bool
policy_of id r = r.secret_id == id

abbrev pub recipient_is : ℕ → String → RecipientRow → Bool
recipient_is id email r = r.secret_id == id && ci_eq r.email email

abbrev pub tracking_of : ℕ → TrackingRow → Bool
tracking_of id r = r.secret_id == id

abbrev pub view_of : ℕ → ViewRow → Bool
view_of id r = r.secret_id == id

abbrev pub user_is : ℕ → UserRow → Bool
user_is id r = r.id == id

-- The ids of the rows that a DELETE on `secrets` removes.
abbrev pub is_gone : (SecretRow → Bool) → List SecretRow → ℕ → Bool
is_gone p rows id = exists (λ s. p s && s.id == id) rows

abbrev pub is_gone_ref : (SecretRow → Bool) → List SecretRow → Option ℕ → Bool
is_gone_ref p rows none = Bool.false
is_gone_ref p rows (some id) = is_gone p rows id

abbrev pub owner_of : List SecretRow → ℕ → Option ℕ
owner_of [] id = none
owner_of (s ∷ rows) id = if s.id == id then s.owner_id else owner_of rows id

-- An object is queued once: ON CONFLICT (object_key) DO NOTHING.
abbrev pub enqueue_object : Option ℕ → ℕ → ℕ → Option String → List OutboxRow → List OutboxRow
enqueue_object user_id size now none out = out
enqueue_object user_id size now (some key) out =
    if exists (λ o. str_eq o.object_key key) out
    then out
    else insert
        (record {
          object_key = key;
          user_id = user_id;
          billed_bytes = size;
          attempts = 0;
          next_attempt_at = now;
          processed_at = none;
        })
        out

-- The trigger `trg_enqueue_secret_objects`, over the versions of the deleted secrets.
unfoldable pub enqueue_objects :
    (SecretRow → Bool) → List SecretRow → ℕ → List VersionRow → List OutboxRow → List OutboxRow
enqueue_objects p rows now [] out = out
enqueue_objects p rows now (v ∷ vs) out = enqueue_objects p rows now vs (
    if is_gone p rows v.secret_id
    then enqueue_object (owner_of rows v.secret_id) v.plaintext_size now v.object_key out
    else out)

-- `DELETE FROM secrets WHERE p`: the trigger, then ON DELETE CASCADE on the tables that refer to
-- the secret, and ON DELETE SET NULL on the audit log.
unfoldable pub delete_secrets : (SecretRow → Bool) → ℕ → Db → Db
delete_secrets p now db = record db {
  secrets = delete p db.secrets;
  secret_keys = delete (λ r. is_gone p db.secrets r.secret_id) db.secret_keys;
  secret_versions = delete (λ r. is_gone p db.secrets r.secret_id) db.secret_versions;
  policies = delete (λ r. is_gone p db.secrets r.secret_id) db.policies;
  recipients = delete (λ r. is_gone p db.secrets r.secret_id) db.recipients;
  outbox = enqueue_objects p db.secrets now db.secret_versions db.outbox;
  audit_logs =
      update (λ r. is_gone_ref p db.secrets r.secret_id) (λ r. record r { secret_id = none })
        db.audit_logs;
}
