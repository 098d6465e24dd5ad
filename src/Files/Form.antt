-- ===== src/Files/Form.antt =====
-- The form of an upload, its validators and the rows that it gives rise to, of app/routers/files.py.
use Prim.Native.Char.{code}
use phantom_share.Prelude.{
  ℕ, ◌+◌, String, Bool, true, false, ◌&&◌, ◌||◌, Option, none, some, List, [], ◌∷◌, ◌==◌, leb,
  if◌then◌else◌, str_eq,
}
use phantom_share.Text.{decimal, ◌++◌ as ◌^◌}
use phantom_share.Result.{http, Result, ok, err}
use phantom_share.Sql.{delete}
use phantom_share.Schema.{VersionRow, PendingRow, file}
use phantom_share.Crypto.{Bytes, Primitives, Draw}
use phantom_share.FileCrypto.{FileCipher}
use phantom_share.Tokens.{Signing}
use phantom_share.Quota.Scripts.{Limits}
use phantom_share.Files.Stage.{Outside}

-- What the upload rests on: settings, and the validators of pydantic and `ipaddress`. `emails` is
-- `TypeAdapter(list[EmailStr])` in lower case, and `network` is `str(ip_network(text, strict=False))`;
-- `none` is the error of each.
pub record Uploads : Type 0 where
  pub prims : Primitives
  pub signing : Signing
  pub cipher : FileCipher
  pub outside : Outside
  pub base_url : String
  pub max_file_bytes : ℕ
  pub chunk_size : ℕ
  pub retention_days : ℕ
  pub limits : Limits
  pub emails : List String → Option (List String)
  pub network : String → Option String
  pub upper : String → String

pub record FileForm : Type 0 where
  pub upload : Bytes
  pub filename : Option String
  pub content_type : Option String
  pub ttl_hours : ℕ
  pub max_views : ℕ
  pub access_password : Option String
  pub allowed_email : List String
  pub change_note : Option String
  pub allowed_cidr : List String
  pub allowed_country : List String
  pub location_policy_mode : String
  pub geoip_fail_closed : Bool

-- What one upload draws at random.
pub record FileDraw : Type 0 where
  pub draw : Draw
  pub nonce_prefix : Bytes
  pub secret_id : ℕ
  pub pending_id : ℕ
  pub secret_reservation_id : ℕ
  pub byte_reservation_id : ℕ
  pub object_uuid : String

-- `list(dict.fromkeys(values))`
unfoldable pub distinct : List String → List String
distinct [] = []
distinct (x ∷ xs) = x ∷ delete (str_eq x) (distinct xs)

abbrev are_letters : ℕ → String → Bool
are_letters n String.[] = n == 2
are_letters n (String.◌∷◌ c s) =
    (leb b'A' (code c) && leb (code c) b'Z' || leb b'a' (code c) && leb (code c) b'z')
    && are_letters (n + 1) s

-- Two ASCII letters.
unfoldable pub is_country : String → Bool
is_country s = are_letters 0 s

abbrev prepend : Option String → Result (List String) → Result (List String)
prepend none rest = err (http 422 "Invalid allowed CIDR")
prepend (some n) (err e) = err e
prepend (some n) (ok ns) = ok (n ∷ ns)

-- `ip_network` of each value, or 422.
unfoldable pub networks : (String → Option String) → List String → Result (List String)
networks network [] = ok []
networks network (v ∷ vs) = prepend (network v) (networks network vs)

abbrev pub or_name : Option String → String
or_name none = "download"
or_name (some name) = if str_eq name "" then "download" else name

abbrev pub file_password : Primitives → Option String → Option String
file_password prims none = none
file_password prims (some password) =
    if str_eq password "" then none else some (prims.sha256_hash password)

-- What the steps before the transaction have made of the upload.
pub record Stored : Type 0 where
  pub key : String
  pub size : ℕ
  pub encrypted_size : ℕ
  pub digest : String
  pub filename : String × String
  pub scanned : String

-- The row of the INSERT into secret_versions.
abbrev pub file_version : ℕ → ℕ → ℕ → Stored → Option String → ℕ → Option String → ℕ → VersionRow
file_version id version key_version stored media_type user note now = record {
  secret_id = id;
  version = version;
  payload_type = file;
  content = none;
  nonce = none;
  key_version = some key_version;
  plaintext_size = stored.size;
  created_by = some user;
  change_note = note;
  object_key = some stored.key;
  created_at = now;
  encrypted_size = stored.encrypted_size;
  filename_ciphertext = some stored.filename.0;
  filename_nonce = some stored.filename.1;
  media_type = media_type;
  content_sha256 = some stored.digest;
  clamav_version = some stored.scanned;
  scanned_at = some now;
}

-- The key of an object.
unfoldable pub object_name : Uploads → ℕ → ℕ → String → String
object_name up secret_id version object_uuid =
    "secrets/"
    ^ (up.signing.uuid_str secret_id ^ ("/versions/" ^ (decimal version ^ ("/" ^ object_uuid))))

abbrev pub quarter_hour : ℕ
quarter_hour = 900_000_000

abbrev pub pending_is : ℕ → PendingRow → Bool
pending_is id r = r.id == id

abbrev pub is_nonempty : List String → Bool
is_nonempty [] = false
is_nonempty (_ ∷ _) = true

pub record FileCreated : Type 0 where
  pub secret_id : ℕ
  pub share_url : String
  pub signed_token : String
  pub version : ℕ
  pub size : ℕ
