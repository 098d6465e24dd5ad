-- ===== src/Files.antt =====
-- app/routers/files.py, app/routers/file_versions.py and app/routers/file_support.py: file secrets.
pub mod Download
pub mod Opening
pub mod Failure
pub mod Appending
pub mod Revise
pub mod Serving
pub mod Spool
pub mod Stage
pub mod Undo
pub mod Update
pub mod Upload
pub mod Views
pub mod Form
use phantom_share.Prelude.{
  ℕ, zero, suc, ◌+◌, String, Bool, true, false, not, ◌&&◌, ◌||◌, Option, none, some, List, [], ◌∷◌,
  ◌++◌, ◌==◌, ltb, length, take, drop, is_some, if◌then◌else◌, str_eq,
}
use phantom_share.Text.{decimal, ◌++◌ as ◌^◌}
use phantom_share.Result.{
  Exn, http, storage_error, Result, ok, err, ◌>>=◌, ◌>>◌, raise_if, or_raise,
}
use phantom_share.Sql.{exists}
use phantom_share.Schema.{Db, SecretRow, recipient_is}
use phantom_share.Permissions.{CurrentUser}
use phantom_share.Crypto.{Bytes, Primitives}
use phantom_share.Secrets.Guards.{same_hash, is_given}

-- The object storage: its objects by their keys.
pub record Object : Type 0 where
  pub key : String
  pub bytes : Bytes

abbrev pub object_is : String → Object → Bool
object_is key o = str_eq o.key key

abbrev pub too_large : ℕ → Exn
too_large max_file_bytes = http 413 ("File exceeds " ^ (decimal max_file_bytes ^ " bytes"))

-- The rounds of `spool_upload`, which reads `read_size` bytes in each: `total` bytes are written.
unfoldable pub spool : ℕ → ℕ → ℕ → ℕ → Bytes → Result ℕ
spool read_size zero max_file_bytes total upload = ok total
spool read_size (suc fuel) max_file_bytes total upload = elim (take read_size upload) [
  | [] ↦ ok total
  | b ∷ bs ↦ do
    let total' = total + length (b ∷ bs)
    raise_if (ltb max_file_bytes total') (too_large max_file_bytes)
    spool read_size fuel max_file_bytes total' (drop read_size upload)
]

-- `spool_upload`, with the size that it returns. A round reads at least one byte.
unfoldable pub spool_upload : ℕ → Bytes → Result ℕ
spool_upload max_file_bytes upload = do
  total ← spool 1048576 (length upload) max_file_bytes 0 upload
  raise_if (total == 0) (http 422 "File is empty")
  ok total

abbrev recipient : ℕ → Option CurrentUser → Db → Result (Unit {0})
recipient secret_id none db = err (http 401 "Log in with a verified recipient email")
recipient secret_id (some u) db = do
  raise_if (not u.is_verified) (http 403 "Verify your email before accessing this secret")
  raise_if (not (exists (recipient_is secret_id u.email) db.recipients))
      (http 403 "Your email is not allowed")

-- `_authorize`
unfoldable pub authorize_reader :
    Primitives → SecretRow → Option String → Option CurrentUser → Db → Result (Unit {0})
authorize_reader prims row password current_user db = do
  if row.email_restricted then recipient row.id current_user db else ok tt
  raise_if
      (row.password_protected && not (is_given password)
        || is_given password && not (same_hash prims password row.access_password_hash))
      (http 401 "Invalid or missing password")
