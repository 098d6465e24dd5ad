-- ===== src/Secrets/Create.antt =====
-- `create_secret`: the reservation, the transaction that writes the secret with all that belongs to
-- it, and the answer.
pub mod Opening
use phantom_share.Prelude.{
  ℕ, ◌+◌, ◌*◌, String, Bool, true, false, not, ◌&&◌, Option, none, some, List, [], ◌∷◌, ◌++◌,
  is_some, map, ◌==◌, if◌then◌else◌, length,
}
use phantom_share.Text.{decimal, ◌++◌ as ◌^◌}
use phantom_share.Result.{
  Exn, http, value_error, type_error, database_error, Fault, bad_nonce, Result, ok, err, ◌>>=◌,
  ◌>>◌, raise_if, or_raise,
}
use phantom_share.Sql.{select_one, exists, insert, update}
use phantom_share.Schema.{
  Db, SecretRow, KeyRow, VersionRow, PolicyRow, RecipientRow, TrackingRow, text, secret_is,
  tracking_of,
}
use phantom_share.Permissions.{CurrentUser}
use phantom_share.Crypto.{Bytes, Primitives, Draw, encrypt_content, validate_client_encrypted}
use phantom_share.Audit.{Entry, log_last, is_known_user}
use phantom_share.Keys.{new_key}
use phantom_share.Tokens.{Signing, create_signed_token}
use phantom_share.Quota.{Reservation, reserve, commit, release}
use phantom_share.Quota.Scripts.{Limits, Redis}
use phantom_share.Versions.Inserts.{Request}
use phantom_share.Secrets.Guards.{Services}
use phantom_share.Secrets.Rows.{
  Site, SecretCreate, secret_row, insert_secret, insert_opaque, insert_encrypted, insert_body,
  first_version, first_policy, recipients_of, tracking_row, signed, created_entry,
}

-- What follows the row of the secret and its key. The addresses come without duplicates, which the
-- primary key of the recipients asks for.
unfoldable pub attach : Primitives → Site → ℕ → SecretCreate → ℕ → Draw → ℕ → String → Db → Db
attach prims site id body owner_id draw now token db = record db {
  secret_versions = insert (first_version prims id body owner_id draw now) db.secret_versions;
  recipients = db.recipients ++ recipients_of id body.allowed_emails;
  policies = insert (first_policy id body) db.policies;
  tracking =
      db.tracking
      ++ tracking_row id owner_id site.view_history_retention_days
          (select_one (secret_is id) db.secrets);
  secrets = update (secret_is id) (signed token) db.secrets;
}

-- The transaction of `create_secret`, with the share token that it returns.
unfoldable pub create :
    Primitives → Signing → Site → ℕ → SecretCreate → Request → ℕ → Draw → Db → Result (String × Db)
unfolding insert_body attach
create prims signing site id body request owner_id draw db = do
  db1 ← insert_body prims id body owner_id draw request.now db
  raise_if (exists (tracking_of id) db.tracking) database_error
  let token = create_signed_token signing id body.ttl_hours 1 none request.now
  ok (
    token,
    log_last "info" (created_entry id owner_id request.client_ip) request.now db
        (attach prims site id body owner_id draw request.now token db1),
  )

pub record SecretCreateResponse : Type 0 where
  pub secret_id : ℕ
  pub share_url : String
  pub signed_token : String
  pub expires_at : Option ℕ
  pub qr_code : String

pub record State : Type 0 where
  pub db : Db
  pub redis : Option Redis

abbrev expiry_of : Option SecretRow → Option ℕ
expiry_of none = none
expiry_of (some s) = some s.expires_at

abbrev pub share_url : Signing → Site → ℕ → String → String
share_url signing site id token =
    site.base_url ^ ("/api/secrets/" ^ (signing.uuid_str id ^ ("?token=" ^ token)))

abbrev pub respond : Signing → Site → ℕ → String → Db → SecretCreateResponse
respond signing site id token db = record {
  secret_id = id;
  share_url = share_url signing site id token;
  signed_token = token;
  expires_at = expiry_of (select_one (secret_is id) db.secrets);
  qr_code = site.generate_qr_code (share_url signing site id token);
}

-- A transaction that raises gives the reservation back, and one that commits keeps it.
abbrev pub finish :
    Signing
    → Site
    → ℕ
    → Reservation
    → Option Redis
    → Result (String × Db)
    → Db
    → Result SecretCreateResponse × State
finish signing site id r redis (err e) db = (err e, record { db = db; redis = release r redis })
finish signing site id r redis (ok (token, db')) db =
    let (done, redis') = commit r redis in
    (done >> ok (respond signing site id token db'), record { db = db'; redis = redis' })

abbrev pub with_reservation :
    Primitives
    → Signing
    → Site
    → ℕ
    → SecretCreate
    → Request
    → CurrentUser
    → Draw
    → Db
    → Result Reservation × Option Redis
    → Result SecretCreateResponse × State
with_reservation prims signing site id body request who draw db (err e, redis) =
    (err e, record { db = db; redis = redis })
with_reservation prims signing site id body request who draw db (ok r, redis) =
    finish signing site id r redis (create prims signing site id body request who.id draw db) db

-- `create_secret`: `id` is the id that the database draws, and `reservation_id` that of the
-- reservation.
unfoldable pub create_secret :
    Primitives
    → Signing
    → Site
    → ℕ
    → ℕ
    → SecretCreate
    → Request
    → CurrentUser
    → Draw
    → State
    → Result SecretCreateResponse × State
unfolding create reserve commit release
create_secret prims signing site id reservation_id body request who draw state =
    with_reservation prims signing site id body request who draw state.db
      (reserve site.default_limits who.id 1 0 reservation_id request.now state.db state.redis)
