-- ===== src/Tests/Uploads.antt =====
-- A form of an upload, and the tables after it.
use phantom_share.Prelude.{ℕ, true, none, some, [], length}
use phantom_share.Result.{Result, ok}
use phantom_share.Schema.{Db, SecretRow}
use phantom_share.Crypto.{encrypt_content}
use phantom_share.FileCrypto.{Encrypted, encrypt_file}
use phantom_share.Files.Upload.{insert_file}
use phantom_share.Files.Form.{Uploads, FileForm, FileDraw, Stored}
use phantom_share.Files.Opening.{reader}
use phantom_share.Files.Download.{FileServices, FileResponse, serve_file}
use phantom_share.Tests.Libraries.{prims, signing, ip, countries}
use phantom_share.Tests.Tables
use phantom_share.Tests.Tables.{value, after, owner, one_user, draw, site, request}
use phantom_share.Tests.Sealing.{cipher, prefix, content, or_no_file}

abbrev pub up : Uploads
up = record {
  prims = prims;
  signing = signing;
  cipher = cipher;
  outside = record {
    scan = λ m. ok (true, "OK");
    upload_works = true;
    delete_works = true;
    prefix_200 = λ s. s;
  };
  base_url = "";
  max_file_bytes = 100;
  chunk_size = 2;
  retention_days = 30;
  limits = record { secret_limit = 5; byte_limit = 1000 };
  emails = some;
  network = some;
  upper = λ s. s;
}

abbrev pub form : ℕ → FileForm
form max_views = record {
  upload = content;
  filename = some "n";
  content_type = none;
  ttl_hours = 1;
  max_views = max_views;
  access_password = none;
  allowed_email = [];
  change_note = none;
  allowed_cidr = [];
  allowed_country = [];
  location_policy_mode = "all";
  geoip_fail_closed = true;
}

abbrev pub drawn : FileDraw
drawn = record {
  draw = draw;
  nonce_prefix = prefix;
  secret_id = 3;
  pending_id = 4;
  secret_reservation_id = 5;
  byte_reservation_id = 6;
  object_uuid = "o";
}

abbrev pub sealed_file : Encrypted
sealed_file = or_no_file (encrypt_file cipher draw.dek 2 prefix 3 1 content)

abbrev pub stored : Stored
stored = record {
  key = "k";
  size = 3;
  encrypted_size = length sealed_file.object;
  digest = "";
  filename = encrypt_content prims "n" draw.dek draw.nonce;
  scanned = "OK";
}

abbrev inserted : ℕ → Result (Unit {0} × Db)
inserted max_views = insert_file up (form max_views) drawn request 1 stored [] [] [] "t" one_user

abbrev pub one_file : ℕ → Db
one_file max_views = after one_user (inserted max_views)

abbrev pub site_reader : FileServices
site_reader = reader up ip countries (λ s. s)

abbrev pub served : ℕ → Result (FileResponse × Db)
served max_views = serve_file site_reader 3 1 1 sealed_file.object none request (one_file max_views)

abbrev pub nothing : FileResponse
nothing = record { body = []; filename = ""; media_type = "" }

abbrev pub none_found : SecretRow
none_found = Tables.secret_row
