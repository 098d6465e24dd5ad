-- ===== src/Tests/Vault.antt =====
-- A run of one secret: an update, a view and a deletion.
use phantom_share.Prelude.{
  ℕ, zero, suc, ◌≡◌, refl, String, Option, none, some, List, [], ◌∷◌, arith,
}
use phantom_share.Result.{ok}
use phantom_share.Sql.{exists, select_one}
use phantom_share.Schema.{Db}
use phantom_share.Content.{open_version}
use phantom_share.Versions.Inserts.{SecretUpdate}
use phantom_share.Secrets.Retrieve.Burn.{remaining}
use phantom_share.Vault.{
  Vault, Command, Reply, Lives, Run, execute, nth, update, read, delete, written, shown, deleted,
}
use phantom_share.Vault.Holds.{Holds}
use phantom_share.Vault.Simulation.{Stands, Run-Lives}
use phantom_share.Tests.Libraries.{prims}
use phantom_share.Tests.Tables.{after, owner, one_secret, draw, request, managed}

abbrev first : Vault
first = record { texts = "a" ∷ []; views = 2 }

first_text :
    (n : ℕ) (p : String)
    → nth n ("a" ∷ []) ≡ some p
    → open_version prims 2 (suc n) one_secret ≡ ok p
unfolding open_version select_one phantom_share.Keys.get_dek_for_secret
    phantom_share.Crypto.unwrap_dek phantom_share.Crypto.decrypt_content
    phantom_share.Tests.Libraries.of_codes phantom_share.Tests.Libraries.read
    phantom_share.Tests.Libraries.to_text phantom_share.Tests.Libraries.codes
first_text zero p h = cc
first_text (suc n) p h = cc

holds : Holds prims 2 one_secret first
unfolding managed remaining select_one
holds = record {
  managed = managed;
  last = refl;
  some_text = omega arith;
  each = first_text;
  views = refl;
}

abbrev changes : Command
changes =
    update (record { content = "b"; expected_version = 1; change_note = none }) request owner draw

abbrev views : Command
views = read none 1 request none

abbrev ends : Command
ends = delete request owner

abbrev changed : Db
changed = after one_secret (execute prims 5 2 changes one_secret)

abbrev viewed : Db
viewed = after changed (execute prims 5 2 views changed)

abbrev ended : Db
ended = after viewed (execute prims 5 2 ends viewed)

abbrev log : List (Command × Reply)
log = (changes, written 2) ∷ (views, shown "b" 1 2) ∷ (ends, deleted) ∷ []

change_runs : execute prims 5 2 changes one_secret ≡ ok (written 2, changed)
unfolding execute exists select_one phantom_share.Permissions.require_owns_secret
    phantom_share.Permissions.from_str phantom_share.Audit.insert_entry phantom_share.Sql.update
    phantom_share.Sql.insert phantom_share.Versions.update_secret
    phantom_share.Versions.check_update phantom_share.Versions.Inserts.insert_text_version
    phantom_share.Versions.Inserts.write_text_version phantom_share.Audit.log_last
    phantom_share.Keys.create_version_key phantom_share.Sql.max_of
    phantom_share.Crypto.encrypt_content phantom_share.Crypto.wrap_dek
change_runs = refl

view_runs : execute prims 5 2 views changed ≡ ok (shown "b" 1 2, viewed)
unfolding execute exists select_one phantom_share.Permissions.require_owns_secret
    phantom_share.Permissions.from_str phantom_share.Audit.insert_entry phantom_share.Sql.update
    phantom_share.Sql.insert phantom_share.Versions.update_secret
    phantom_share.Versions.check_update phantom_share.Versions.Inserts.insert_text_version
    phantom_share.Versions.Inserts.write_text_version phantom_share.Audit.log_last
    phantom_share.Keys.create_version_key phantom_share.Sql.max_of
    phantom_share.Crypto.encrypt_content phantom_share.Crypto.wrap_dek
    phantom_share.Secrets.Retrieve.retrieve phantom_share.Secrets.Retrieve.serve
    phantom_share.Secrets.Guards.check_view phantom_share.Secrets.Views.reveal
    phantom_share.Secrets.Views.record_view phantom_share.Secrets.Views.count_view
    phantom_share.Secrets.Views.delete_if_fully_viewed phantom_share.Keys.get_dek_for_secret
    phantom_share.Sql.select_top phantom_share.Crypto.unwrap_dek
    phantom_share.Crypto.decrypt_content phantom_share.Tests.Libraries.of_codes
    phantom_share.Tests.Libraries.read phantom_share.Tests.Libraries.to_text
    phantom_share.Tests.Libraries.codes
view_runs = refl

end_runs : execute prims 5 2 ends viewed ≡ ok (deleted, ended)
unfolding execute exists select_one phantom_share.Permissions.require_owns_secret
    phantom_share.Permissions.from_str phantom_share.Audit.insert_entry phantom_share.Sql.update
    phantom_share.Sql.insert phantom_share.Versions.update_secret
    phantom_share.Versions.check_update phantom_share.Versions.Inserts.insert_text_version
    phantom_share.Versions.Inserts.write_text_version phantom_share.Audit.log_last
    phantom_share.Keys.create_version_key phantom_share.Sql.max_of
    phantom_share.Crypto.encrypt_content phantom_share.Crypto.wrap_dek
    phantom_share.Secrets.Retrieve.retrieve phantom_share.Secrets.Retrieve.serve
    phantom_share.Secrets.Guards.check_view phantom_share.Secrets.Views.reveal
    phantom_share.Secrets.Views.record_view phantom_share.Secrets.Views.count_view
    phantom_share.Secrets.Views.delete_if_fully_viewed phantom_share.Keys.get_dek_for_secret
    phantom_share.Sql.select_top phantom_share.Crypto.unwrap_dek
    phantom_share.Crypto.decrypt_content phantom_share.Tests.Libraries.of_codes
    phantom_share.Tests.Libraries.read phantom_share.Tests.Libraries.to_text
    phantom_share.Tests.Libraries.codes phantom_share.Secrets.Manage.delete_owned
    phantom_share.Schema.delete_secrets
end_runs = refl

a_run : Run prims 5 2 one_secret log ended
unfolding exists
a_run =
    Run.next (refl, refl) change_runs
      (Run.next tt view_runs (Run.next tt end_runs (Run.rest ended)))

Run-Lives_example : (v : Option Vault) × Lives (some first) log v × Stands prims 2 ended v
Run-Lives_example = Run-Lives prims 5 2 (some first) holds a_run
