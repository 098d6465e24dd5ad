-- ===== src/Versions/Conflict.antt =====
-- When `update_secret` succeeds, and what a writer with an outdated version number is told.
use phantom_share.Prelude.{ℕ, ◌+◌, ◌<◌, ◌≡◌, ◌≢◌, ap, ◌∙◌, true, some, arith}
use phantom_share.Result.{ok, err, version_conflict}
use phantom_share.Sql.{select_one, exists}
use phantom_share.Schema.{Db, SecretRow, secret_is, user_is, text}
use phantom_share.Permissions.{CurrentUser, require_owns_secret}
use phantom_share.Crypto.{Primitives, Draw}
use phantom_share.Audit.{log_last}
use phantom_share.Content.{IsManaged}
use phantom_share.Versions.{update_entry, check_update, update_secret}
use phantom_share.Versions.Inserts.{Request, SecretUpdate, SecretUpdateResponse, write_text_version}
use phantom_share.Versions.Update.{Appended, insert_text_version-Appended, update_secret-Appended}

-- The guards that come before the comparison of the version numbers.
pub record MayUpdate (row : SecretRow) (request : Request) (who : CurrentUser) : Type 0 where
  pub owned : require_owns_secret row.owner_id who ≡ ok tt
  pub live : request.now < row.expires_at
  pub is_text : row.payload_type ≡ text

module _ (max : ℕ) (id : ℕ) (body : SecretUpdate) (request : Request) (who : CurrentUser) (db : Db)
    (row : SecretRow) (found : select_one (secret_is id) db.secrets ≡ some row)
    (may : MayUpdate row request who) where
  check_update_conflict :
      row.current_version ≢ body.expected_version
      → check_update max id body request who db ≡ err (version_conflict row.current_version)
  unfolding check_update
  check_update_conflict ne = rw found (rw may.owned (ground arith))

module _ (prims : Primitives) (max : ℕ) (id : ℕ) (body : SecretUpdate) (request : Request)
    (who : CurrentUser) (draw : Draw) (db : Db) (m : IsManaged id db) {resp : SecretUpdateResponse}
    {db' : Db} (known : exists (user_is who.id) db.users ≡ true)
    (inet : db.is_inet request.client_ip ≡ true)
    (first : update_secret prims max id body request who draw db ≡ ok (resp, db')) where
  -- Of two updates of a managed secret that expect the same version, the first by a known user
  -- from an address that the database takes, the second is refused with the number of the version that the first one wrote, whatever it holds, where
  -- its sender passes the guards before the comparison.
  pub update_secret_twice :
      (body' : SecretUpdate) (request' : Request) (who' : CurrentUser) (draw' : Draw)
      → body'.expected_version ≡ body.expected_version
      → MayUpdate m.secret request' who'
      → update_secret prims max id body' request' who' draw' db'
        ≡ err (version_conflict (body.expected_version + 1))
  unfolding update_secret
  update_secret_twice body' request' who' draw' same may =
      let (at, _, a) =
        update_secret-Appended prims max id body request who draw db m known inet first in
      let n : a.managed.secret.current_version ≡ body.expected_version + 1 =
        ap (λ (r : SecretRow). r.current_version) a.row ∙ ap (λ (v : ℕ). v + 1) at in
      rw
        (check_update_conflict max id body' request' who' db' a.managed.secret
          a.managed.secret_found
          (record {
            owned = rw (ap (λ (r : SecretRow). r.owner_id) a.row) may.owned;
            live = rw (ap (λ (r : SecretRow). r.expires_at) a.row) may.live;
            is_text = ap (λ (r : SecretRow). r.payload_type) a.row ∙ may.is_text;
          })
          (omega arith))
        (ap (λ (v : ℕ). err (version_conflict v)) n)

module _ (prims : Primitives) (max : ℕ) (id : ℕ) (body : SecretUpdate) (request : Request)
    (who : CurrentUser) (draw : Draw) (db : Db) (m : IsManaged id db) where
  check_update_total :
      MayUpdate m.secret request who
      → m.secret.current_version ≡ body.expected_version
      → m.secret.current_version < max
      → check_update max id body request who db ≡ ok m.secret
  unfolding check_update
  check_update_total may same below =
      rw m.secret_found (rw may.owned (rw m.current_found (rw m.key_named (ground arith))))

  -- An update of a managed secret succeeds where the caller is a known user at an address that
  -- the database takes, passes the guards before
  -- the comparison and expects the current version, and the limit on versions is not reached. It
  -- appends the given text as the next version.
  pub update_secret_total :
      MayUpdate m.secret request who
      → m.secret.current_version ≡ body.expected_version
      → m.secret.current_version < max
      → exists (user_is who.id) db.users ≡ true
      → db.is_inet request.client_ip ≡ true
      → (resp : SecretUpdateResponse) × (db' : Db) × (update_secret prims max id body request who
            draw db
          ≡ ok (resp, db'))
        × Appended prims id body.content m.secret db db'
  unfolding update_secret
  update_secret_total may same below known inet =
      let (key_version, db1) =
        write_text_version prims id (m.secret.current_version + 1) body.content who.id
          body.change_note draw request.now db in
      let done : update_secret prims max id body request who draw db
          ≡ ok (
            record {
              secret_id = id;
              version = m.secret.current_version + 1;
              updated_at = request.now;
            },
            log_last "info" (update_entry id m.secret.current_version key_version request who)
                request.now db db1,
          ) =
        rw (check_update_total may same below) (
          rw (
            insert_text_version-Appended prims id db m body.content who.id body.change_note draw
              request.now)) in
      (
        _,
        _,
        done,
        (update_secret-Appended prims max id body request who draw db m known inet done).2,
      )
