-- ===== src/Files/Opening.antt =====
-- A file secret, just after `create_file_secret` has written it, opens to the file.
use mathlib.Core.Path.{subst}
use phantom_share.Prelude.{
  ℕ, ◌≡◌, sym, String, false, Option, none, true, refl, List, leb, arith, ==-self,
}
use phantom_share.Result.{ok}
use phantom_share.Sql.{exists}
use phantom_share.Sql.Laws.{select_one-insert_new, exists-insert_new}
use phantom_share.Schema.{
  Db, SecretRow, VersionRow, secret_is, key_is, user_is, version_is, policy_of,
}
use phantom_share.Permissions.{CurrentUser}
use phantom_share.Crypto.{Bytes, encrypt_content}
use phantom_share.Crypto.Laws.{unwrap_dek-wrap_dek, decrypt_content-encrypt_content}
use phantom_share.FileCrypto.{Encrypted, decrypt_file}
use phantom_share.Audit.{log_last}
use phantom_share.Audit.Laws.{log_last_keeps}
use phantom_share.Keys.{new_key, get_dek_for_secret}
use phantom_share.ClientIp.{IpText}
use phantom_share.Location.{Countries}
use phantom_share.Versions.Inserts.{Request}
use phantom_share.Files.Download.{
  FileServices, FileResponse, check_locked, open_file, write_view, serve_file, or_download,
  or_octets,
}
use phantom_share.Files.Upload.{file_secret, file_policy, write_file, insert_file, uploaded_entry}
use phantom_share.Files.Form.{
  Uploads, FileForm, FileDraw, Stored, or_name, is_nonempty, file_version,
}

-- The services of a download from the site of the upload.
abbrev pub reader : Uploads → IpText → Countries → (String → String) → FileServices
reader up ip countries path_name = record {
  services = record { prims = up.prims; signing = up.signing; ip = ip; country_for_ip = countries };
  cipher = up.cipher;
  path_name = path_name;
}

module _ (up : Uploads) (ip : IpText) (countries_of : Countries) (path_name : String → String)
    (form : FileForm) (drawn : FileDraw) (request : Request) (user : ℕ) (stored : Stored)
    (emails cidrs countries : List String) (token : String) (db : Db)
    (no_secret : exists (secret_is drawn.secret_id) db.secrets ≡ false)
    (no_key : exists (key_is drawn.secret_id 1) db.secret_keys ≡ false)
    (no_version : exists (version_is drawn.secret_id 1) db.secret_versions ≡ false)
    (no_policy : exists (policy_of drawn.secret_id) db.policies ≡ false)
    (some_view : leb form.max_views 0 ≡ false) where
  abbrev id : ℕ
  id = drawn.secret_id

  abbrev new_secret : SecretRow
  new_secret = file_secret up id form user token (is_nonempty emails) request.now

  abbrev new_version : VersionRow
  new_version = file_version id 1 1 stored form.content_type user form.change_note request.now

  abbrev written : Db
  written = write_file up form drawn request user stored emails cidrs countries token db

  check_locked-written : check_locked id 1 1 written ≡ ok (new_secret, new_version)
  unfolding check_locked write_file
  check_locked-written = rw (
    select_one-insert_new (secret_is id) new_secret db.secrets no_secret (==-self id),
    select_one-insert_new (policy_of id) (file_policy up id form cidrs countries) db.policies
        no_policy (==-self id),
    some_view,
    select_one-insert_new (version_is id 1) new_version db.secret_versions no_version
        (rw (==-self id)),
  )

  pub open_file-written :
      (e : Encrypted)
      → stored.filename
        ≡ encrypt_content up.prims (or_name form.filename) drawn.draw.dek drawn.draw.nonce
      → decrypt_file up.cipher drawn.draw.dek id 1 e.object ≡ ok form.upload
      → open_file (reader up ip countries_of path_name) id new_secret new_version e.object written
        ≡ ok (record {
          body = form.upload;
          filename = or_download (path_name (or_name form.filename));
          media_type = or_octets form.content_type;
        })
  unfolding open_file write_file get_dek_for_secret
  open_file-written e named read = rw (
    select_one-insert_new (key_is id 1) (new_key up.prims id drawn.draw 1 none) db.secret_keys
        no_key (rw (==-self id)),
    unwrap_dek-wrap_dek up.prims drawn.draw.dek drawn.draw.dek_nonce,
    named,
    decrypt_content-encrypt_content up.prims (or_name form.filename) drawn.draw.dek
        drawn.draw.nonce,
    read,
  )

  -- The audit entry changes none of it.
  pub check_locked-logged :
      (db' : Db)
      → db' ≡ record written { audit_logs = db'.audit_logs }
      → check_locked id 1 1 db' ≡ ok (new_secret, new_version)
  unfolding check_locked
  check_locked-logged db' kept =
      subst (λ x. check_locked id 1 1 x ≡ ok (new_secret, new_version)) (sym kept)
        check_locked-written

  pub open_file-logged :
      (object : Bytes) (db' : Db) {r : FileResponse}
      → db' ≡ record written { audit_logs = db'.audit_logs }
      → open_file (reader up ip countries_of path_name) id new_secret new_version object written
        ≡ ok r
      → open_file (reader up ip countries_of path_name) id new_secret new_version object db' ≡ ok r
  unfolding open_file
  open_file-logged object db' {r} kept opened =
      subst
        (λ x.
          open_file (reader up ip countries_of path_name) id new_secret new_version object x ≡ ok r)
        (sym kept) opened

  pub serve_file-logged :
      (object : Bytes) (current_user : Option CurrentUser) (later : Request) (db' : Db)
      {r : FileResponse}
      → check_locked id 1 1 db' ≡ ok (new_secret, new_version)
      → open_file (reader up ip countries_of path_name) id new_secret new_version object db' ≡ ok r
      → serve_file (reader up ip countries_of path_name) id 1 1 object current_user later db'
        ≡ ok (
          r,
          write_view (reader up ip countries_of path_name) id new_secret current_user later db',
        )
  unfolding serve_file
  serve_file-logged object current_user later db' checked opened = rw (checked, opened)

  written-known : exists (secret_is id) written.secrets ≡ true
  unfolding write_file
  written-known = exists-insert_new (secret_is id) new_secret db.secrets (==-self id)

  written-users : (written.users ≡ db.users) × (written.is_inet ≡ db.is_inet)
  unfolding write_file
  written-users = (refl, refl)

  insert_file_sound :
      (db' : Db)
      → insert_file up form drawn request user stored emails cidrs countries token db ≡ ok (tt, db')
      → (exists (user_is user) db.users ≡ true)
        × (log_last "info" (uploaded_entry up id user request stored.size) request.now db written
            ≡ db')
  unfolding insert_file
  insert_file_sound db' h = (ground arith, ground arith)

  pub insert_file-logged :
      (db' : Db)
      → db.is_inet request.client_ip ≡ true
      → insert_file up form drawn request user stored emails cidrs countries token db ≡ ok (tt, db')
      → db' ≡ record written { audit_logs = db'.audit_logs }
  insert_file-logged db' inet h =
      let (known, logged) = insert_file_sound db' h in
      let (users, takes) = written-users in
      log_last_keeps "info" (uploaded_entry up id user request stored.size) request.now db written
        (rw takes inet) (rw users known) written-known logged
