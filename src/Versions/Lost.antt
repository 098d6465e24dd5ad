-- ===== src/Versions/Lost.antt =====
-- A write whose audit entry fails in the same transaction.
use phantom_share.Prelude.{ℕ, ◌+◌, String, ◌≡◌, refl, Option, sym, ap, ◌∙◌, false, some}
use phantom_share.Result.{ok-injective, raise_if-bind-eq-ok, ok, >>=-eq-ok, ok-state}
use phantom_share.Schema.{Db}
use phantom_share.Permissions.{CurrentUser}
use phantom_share.Crypto.{Primitives, Draw}
use phantom_share.Audit.{Entry, insert_entry, log_last}
use phantom_share.Versions.{check_update, update_entry, update_secret}
use phantom_share.Versions.Inserts.{
  Request, SecretUpdate, SecretUpdateResponse, insert_text_version, write_text_version,
}

log_last-lost :
    (severity : String) (e : Entry) (ip : String) (now : ℕ) (start db : Db)
    → e.actor_ip ≡ some ip
    → db.is_inet ip ≡ false
    → log_last severity e now start db ≡ start
unfolding log_last insert_entry
log_last-lost severity e ip now start db at outside = rw (at, outside)

insert_text_version-is_inet :
    (prims : Primitives) (id version : ℕ) (text : String) (actor : ℕ) (change_note : Option String)
    (draw : Draw) (now : ℕ) (db : Db) {r : ℕ × Db}
    → insert_text_version prims id version text actor change_note draw now db ≡ ok r
    → r.1.is_inet ≡ db.is_inet
unfolding insert_text_version write_text_version
insert_text_version-is_inet prims id version text actor change_note draw now db {r} h =
    let (_, h1) = raise_if-bind-eq-ok _ _ _ {a = r} h in
    ap (λ (p : ℕ × Db). p.1.is_inet) (sym (ok-injective h1))

-- Where the database does not take the address of the caller, an update that is answered as done
-- leaves every table as it was: the failed INSERT of the audit entry takes the new version back.
pub update_secret-lost :
    (prims : Primitives) (max id : ℕ) (body : SecretUpdate) (request : Request) (who : CurrentUser)
    (draw : Draw) (db : Db) {resp : SecretUpdateResponse} {db' : Db}
    → db.is_inet request.client_ip ≡ false
    → update_secret prims max id body request who draw db ≡ ok (resp, db')
    → db' ≡ db
unfolding update_secret
update_secret-lost prims max id body request who draw db {resp} {db'} outside h =
    let (row, checked, h1) =
      >>=-eq-ok (check_update max id body request who db) _ {b = (resp, db')} h in
    let ((key_version, db1), inserted, h2) =
      >>=-eq-ok
        (insert_text_version prims id (row.current_version + 1) body.content who.id body.change_note
          draw request.now db)
        _ {b = (resp, db')} h1 in
    let at : db1.is_inet ≡ db.is_inet =
      insert_text_version-is_inet prims id (row.current_version + 1) body.content who.id
        body.change_note draw request.now db {r = (key_version, db1)} inserted in
    sym (ok-state h2)
    ∙ log_last-lost "info" (update_entry id row.current_version key_version request who)
        request.client_ip request.now db db1 refl (rw at outside)
