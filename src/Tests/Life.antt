-- ===== src/Tests/Life.antt =====
-- The life of one secret: creation, updates, retrievals, a rotation and the deletion.
use phantom_share.Prelude.{ℕ, ◌+◌, ◌≡◌, refl, true, false, none, some, List, [], ◌∷◌, arith}
use phantom_share.Result.{Result, ok, err, version_conflict}
use phantom_share.Sql.{select_one, max_of, exists}
use phantom_share.Schema.{Db, SecretRow, key_of}
use phantom_share.Permissions.{require_owns_secret}
use phantom_share.Keys.{version_number, rotate_key}
use phantom_share.Keys.Rotation.{Rotated, rotate_key-Rotated}
use phantom_share.Tokens.{create_signed_token}
use phantom_share.Versions.{update_secret, restore_secret_version}
use phantom_share.Versions.Inserts.{SecretUpdate, SecretUpdateResponse}
use phantom_share.Versions.Update.{Appended, update_secret-Appended}
use phantom_share.Versions.Lost.{update_secret-lost}
use phantom_share.Versions.Conflict.{MayUpdate, update_secret_twice, update_secret_total}
use phantom_share.Secrets.Create.{create}
use phantom_share.Secrets.Create.Opening.{Opens, create-Opens}
use phantom_share.Secrets.Retrieve.{retrieve}
use phantom_share.Secrets.Guards.{SecretContent}
use phantom_share.Secrets.Retrieve.Burn.{remaining}
use phantom_share.Secrets.Retrieve.Reads.{Attempt, reads, reads-remaining}
use phantom_share.Secrets.Manage.{delete_owned}
use phantom_share.Secrets.Access.{
  LocationPolicyUpdate, LocationPolicyResponse, update_location_policy,
}
use phantom_share.Tests.Libraries.{prims, signing, services}
use phantom_share.Tests.Tables.{
  after, value, owner, one_user, one_secret, draw, site, request, body, creation, created, token,
  secret_row, managed,
}

create-Opens_example :
    (value "" creation ≡ create_signed_token signing 2 1 1 none 1000000) × Opens prims 2 "a" created
unfolding exists create phantom_share.Audit.insert_entry phantom_share.Audit.log_last
    phantom_share.Sql.update phantom_share.Sql.insert
create-Opens_example =
    create-Opens prims signing site 2 body request 1 draw one_user {token = value "" creation}
      {db' = created} refl refl refl refl refl

abbrev answered {ℓ} : {A : Type ℓ} → Result A → A → A
answered (ok a) d = a
answered (err e) d = d

-- Three requests for the secret, which may be viewed twice.
abbrev attempt : Attempt
attempt = record {
  secret_id = some 2;
  access_password = none;
  token = some token;
  request = request;
  current_user = none;
}

abbrev attempts : List Attempt
attempts = attempt ∷ attempt ∷ attempt ∷ []

reads-remaining_example :
    (reads services 2 attempts one_secret).0 + remaining 2 (reads services 2 attempts one_secret).1
    ≡ remaining 2 one_secret
reads-remaining_example = reads-remaining services 2 attempts one_secret

abbrev retrieved : Result ((SecretContent × SecretRow) × Db)
retrieved = retrieve prims 2 none 1 request none one_secret

abbrev no_content : SecretContent × SecretRow
no_content = (
  record {
    content = "";
    created_at = 0;
    expires_at = 0;
    views_remaining = 0;
    client_encrypted = false;
    version = 0;
  },
  secret_row,
)

abbrev new_text : SecretUpdate
new_text = record { content = "b"; expected_version = 1; change_note = none }

abbrev updated : Result (SecretUpdateResponse × Db)
updated = update_secret prims 5 2 new_text request owner draw one_secret

abbrev no_update : SecretUpdateResponse
no_update = record { secret_id = 0; version = 0; updated_at = 0 }

update_secret-Appended_example :
    (managed.secret.current_version ≡ 1)
    × ((value no_update updated).version ≡ 1 + 1)
    × Appended prims 2 "b" managed.secret one_secret (after one_secret updated)
unfolding update_secret phantom_share.Versions.check_update select_one require_owns_secret
    phantom_share.Permissions.from_str phantom_share.Versions.Inserts.insert_text_version exists
    phantom_share.Audit.insert_entry phantom_share.Audit.log_last
    phantom_share.Versions.Inserts.write_text_version phantom_share.Sql.update
update_secret-Appended_example =
    update_secret-Appended prims 5 2 new_text request owner draw one_secret managed
      {resp = value no_update updated} {db' = after one_secret updated} refl refl refl

-- The reader's address is one that the database does not take.
abbrev outside : Db
outside = record one_secret { is_inet = λ _. false }

update_secret-lost_example :
    after outside (update_secret prims 5 2 new_text request owner draw outside) ≡ outside
unfolding update_secret phantom_share.Versions.check_update select_one require_owns_secret
    phantom_share.Permissions.from_str phantom_share.Versions.Inserts.insert_text_version exists
    phantom_share.Audit.insert_entry phantom_share.Audit.log_last
    phantom_share.Versions.Inserts.write_text_version phantom_share.Sql.update
update_secret-lost_example =
    update_secret-lost prims 5 2 new_text request owner draw outside
      {resp = value no_update (update_secret prims 5 2 new_text request owner draw outside)}
      {db' = after outside (update_secret prims 5 2 new_text request owner draw outside)} refl refl

unfoldable may : MayUpdate managed.secret request owner
unfolding require_owns_secret phantom_share.Permissions.from_str managed
may = record { owned = refl; live = omega arith; is_text = refl }

update_secret_twice_example :
    update_secret prims 5 2 new_text request owner draw (after one_secret updated)
    ≡ err (version_conflict (1 + 1))
unfolding update_secret phantom_share.Versions.check_update select_one require_owns_secret
    phantom_share.Permissions.from_str phantom_share.Versions.Inserts.insert_text_version exists
    phantom_share.Audit.insert_entry phantom_share.Audit.log_last
    phantom_share.Versions.Inserts.write_text_version phantom_share.Sql.update
update_secret_twice_example =
    update_secret_twice prims 5 2 new_text request owner draw one_secret managed
      {resp = value no_update updated} {db' = after one_secret updated} refl refl refl new_text
      request owner draw refl may

update_secret_total_example :
    (resp : SecretUpdateResponse) × (db' : Db) × (update_secret prims 5 2 new_text request owner
        draw one_secret
      ≡ ok (resp, db'))
    × Appended prims 2 "b" managed.secret one_secret db'
unfolding managed exists
update_secret_total_example =
    update_secret_total prims 5 2 new_text request owner draw one_secret managed may refl
      (omega arith) refl refl

abbrev restored : Result (SecretUpdateResponse × Db)
restored = restore_secret_version prims 5 2 1 request owner draw one_secret

abbrev rotated : Result (ℕ × Db)
rotated = rotate_key prims 2 draw 2000000 one_secret

rotate_key-Rotated_example :
    (value 0 rotated ≡ max_of (key_of 2) version_number one_secret.secret_keys + 1)
    × Rotated prims 2 managed.secret one_secret (after one_secret rotated)
unfolding rotate_key select_one phantom_share.Keys.get_dek_for_secret phantom_share.Sql.select_top
    phantom_share.Crypto.unwrap_dek phantom_share.Crypto.decrypt_content
    phantom_share.Tests.Libraries.of_codes phantom_share.Tests.Libraries.read
    phantom_share.Tests.Libraries.to_text phantom_share.Tests.Libraries.codes
rotate_key-Rotated_example =
    rotate_key-Rotated prims 2 draw 2000000 one_secret managed {n = value 0 rotated}
      {db' = after one_secret rotated} refl

abbrev deleted : Db
deleted = answered (delete_owned 2 request owner one_secret) one_secret

abbrev new_policy : LocationPolicyUpdate
new_policy = record {
  allowed_cidrs = [];
  allowed_countries = "DE" ∷ [];
  location_policy_mode = "all";
  geoip_fail_closed = true;
}

abbrev restricted : Result (LocationPolicyResponse × Db)
restricted = update_location_policy signing "" 2 new_policy request owner one_secret

abbrev no_response : LocationPolicyResponse
no_response = record {
  secret_id = 0;
  allowed_cidrs = [];
  allowed_countries = [];
  location_policy_mode = "";
  geoip_fail_closed = true;
  policy_version = 0;
  signed_token = "";
  share_url = "";
}
