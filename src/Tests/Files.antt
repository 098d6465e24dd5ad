-- ===== src/Tests/Files.antt =====
-- Files: one upload, its downloads, and its updates.
use phantom_share.Prelude.{◌≡◌, refl, true, false, none, some, []}
use phantom_share.Result.{Result, ok, storage_error}
use phantom_share.Sql.{select_one, exists}
use phantom_share.Schema.{Db, SecretRow, VersionRow, secret_is}
use phantom_share.Crypto.{Bytes, encrypt_content}
use phantom_share.FileCrypto.{FileCipher, Encrypted, encrypt_file, decrypt_file}
use phantom_share.Quota.Scripts.{Redis}
use phantom_share.Files.{spool_upload, too_large}
use phantom_share.Files.Stage.{Stage, Outside}
use phantom_share.Files.Upload.{insert_file, create_file_secret}
use phantom_share.Files.Form.{Uploads, FileForm, FileDraw, FileCreated, Stored}
use phantom_share.Files.Undo.{content_of}
use phantom_share.Files.Failure.{create_file_secret-undone}
use phantom_share.Files.Download.{FileServices, serve_file}
use phantom_share.Files.Views.{serve_file-last}
use phantom_share.Files.Revise.{FileUpdate, revise}
use phantom_share.Tests.Libraries.{prims, signing}
use phantom_share.Tests.Tables.{value, after, owner, one_user, request}
use phantom_share.Tests.Sealing.{untag, content}
use phantom_share.Tests.Uploads.{
  up, form, drawn, sealed_file, stored, one_file, site_reader, served, nothing, none_found,
}

abbrev row_of : Db → SecretRow
row_of db = elim (select_one (secret_is 3) db.secrets) [ none ↦ none_found | some r ↦ r ]

serve_file-last_example :
    (after (one_file 1) (served 1) ≡ one_file 1)
    × (serve_file site_reader 3 1 1 sealed_file.object none request (after (one_file 1) (served 1))
        ≡ ok (value nothing (served 1), after (one_file 1) (served 1)))
unfolding select_one exists insert_file serve_file encrypt_file decrypt_file encrypt_content
    phantom_share.FileCrypto.pack phantom_share.FileCrypto.unpack
    phantom_share.FileCrypto.encrypt_chunks phantom_share.FileCrypto.decrypt_chunks
    phantom_share.FileCrypto.decrypt_body phantom_share.FileCrypto.frame
    phantom_share.Audit.insert_entry phantom_share.Audit.log phantom_share.Audit.log_last
    phantom_share.Crypto.decrypt_content phantom_share.Crypto.unwrap_dek
    phantom_share.Crypto.wrap_dek phantom_share.Files.Upload.write_file
    phantom_share.Files.Download.check_locked phantom_share.Files.Download.open_file
    phantom_share.Files.Download.write_view phantom_share.Keys.get_dek_for_secret
    phantom_share.Sql.insert phantom_share.Sql.update phantom_share.Sql.delete
    phantom_share.Secrets.Views.count_view phantom_share.Secrets.Views.record_view
    phantom_share.Secrets.Views.delete_if_fully_viewed phantom_share.Schema.delete_secrets
    phantom_share.Schema.enqueue_objects phantom_share.Tests.Libraries.read
    phantom_share.Tests.Libraries.of_codes phantom_share.Tests.Libraries.to_text
    phantom_share.Tests.Libraries.codes phantom_share.Tests.Libraries.unary untag
serve_file-last_example =
    serve_file-last site_reader 3 1 1 sealed_file.object none request (one_file 1)
      {row = row_of (one_file 1)} {r = value nothing (served 1)}
      {db' = after (one_file 1) (served 1)} refl refl refl

abbrev broken : Uploads
broken = record up {
  outside = record {
    scan = λ m. ok (true, "OK");
    upload_works = false;
    delete_works = true;
    prefix_200 = λ s. s;
  };
}

abbrev start : Stage
start = record {
  db = one_user;
  redis = some (record { usages = []; held = []; due = [] });
  objects = [];
  byte_reservation = none;
  object_key = none;
}

abbrev failed : Result FileCreated × Stage
failed = create_file_secret broken (form 1) drawn request owner start

create_file_secret-undone_example :
    (failed.1.objects ≡ []) × (content_of failed.1.db ≡ content_of one_user)
unfolding create_file_secret encrypt_file exists spool_upload phantom_share.Audit.log_warning
    phantom_share.FileCrypto.pack phantom_share.FileCrypto.frame
    phantom_share.FileCrypto.encrypt_chunks phantom_share.Files.Stage.announce
    phantom_share.Files.Stage.name_object phantom_share.Files.Stage.refuse_malware
    phantom_share.Files.Stage.reserve_bytes phantom_share.Files.Stage.store
    phantom_share.Files.Stage.◌>>=◌ phantom_share.Files.Upload.create_file
    phantom_share.Files.Upload.take_in phantom_share.Files.Upload.seal_upload
    phantom_share.Files.Form.object_name phantom_share.Files.spool phantom_share.Quota.reserve
    phantom_share.Quota.Scripts.reserve_script phantom_share.Quota.limits_for_user
    phantom_share.Quota.durable_usage phantom_share.Quota.release
    phantom_share.Quota.Scripts.release_script phantom_share.Sql.count phantom_share.Sql.sum
    phantom_share.Sql.select_one phantom_share.Sql.insert phantom_share.Sql.update
    phantom_share.Sql.delete
create_file_secret-undone_example =
    create_file_secret-undone broken (form 1) drawn request owner start {e = storage_error}
      {s' = failed.1} refl refl refl refl refl

abbrev next : FileUpdate
next = record {
  upload = content;
  filename = none;
  content_type = none;
  expected_version = 1;
  change_note = none;
}

abbrev revised : Db
revised = after (one_file 1) (revise prims 3 next drawn request owner stored (one_file 1))
