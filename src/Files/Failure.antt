-- ===== src/Files/Failure.antt =====
-- `create_file_secret` where it fails.
use mathlib.Core.Path.{subst}
use phantom_share.Prelude.{
  ℕ, ◌≡◌, refl, sym, ap, ◌∙◌, String, false, true, Option, none, some, List, is_some,
}
use phantom_share.Result.{Exn, Result, ok, err}
use phantom_share.Sql.{exists}
use phantom_share.Schema.{Db}
use phantom_share.Permissions.{CurrentUser}
use phantom_share.Crypto.{Bytes}
use phantom_share.Quota.{Reservation, reserve, commit}
use phantom_share.Quota.Scripts.{Redis}
use phantom_share.Versions.Inserts.{Request}
use phantom_share.Files.{Object, object_is}
use phantom_share.Files.Stage.{Stage, conclude, answered, recount, commit_next}
use phantom_share.Files.Upload.{seal_upload, take_in, create_file, with_secret, create_file_secret}
use phantom_share.Files.Form.{Uploads, FileForm, FileDraw, FileCreated, object_name}
use phantom_share.Files.Undo.{
  content_of, IsConnected, Bare, Named, Leaves, Runs, >>=-Runs, lift-Bare, lift-Named,
  in_db-IsConnected, lift-IsConnected, refuse_malware-Bare, reserve_bytes-Bare, name_object-Named,
  announce-Named, store-Named, undo-objects, reserve-connected,
}

ok-ne-err : {A : Type 0} {a : A} {e : Exn} → ok a ≡ err e → ⊥
ok-ne-err h = cc

module _ (up : Uploads) (secret_id version user : ℕ) (drawn : FileDraw) (request : Request)
    (objects : List Object) (db : Db)
    (fresh : exists (object_is (object_name up secret_id version drawn.object_uuid)) objects
      ≡ false) where
  abbrev key : String
  key = object_name up secret_id version drawn.object_uuid

  seal_upload-Named :
      (upload : Bytes) (filename : Option String) (size : ℕ) (scanned : String) (held : Reservation)
      → Runs key objects db fresh
          (Bare key objects db fresh)
          (seal_upload up secret_id version drawn request user upload filename size scanned held)
          (Named key objects db fresh)
  unfolding seal_upload
  seal_upload-Named upload filename size scanned held =
      >>=-Runs key objects db fresh (lift-Bare key objects db fresh _) (λ e.
        >>=-Runs key objects db fresh (name_object-Named key objects db fresh) (λ _.
          >>=-Runs key objects db fresh (announce-Named key objects db fresh _) (λ _.
            >>=-Runs key objects db fresh (store-Named key objects db fresh up.outside _)
              (λ _. lift-Named key objects db fresh _))))

  pub take_in-Named :
      (upload : Bytes) (filename : Option String)
      → Runs key objects db fresh
          (Bare key objects db fresh)
          (take_in up secret_id version drawn request user upload filename)
          (Named key objects db fresh)
  unfolding take_in
  take_in-Named upload filename =
      >>=-Runs key objects db fresh (lift-Bare key objects db fresh _) (λ size.
        >>=-Runs key objects db fresh (lift-Bare key objects db fresh _) (λ reply.
          >>=-Runs key objects db fresh
            (refuse_malware-Bare key objects db fresh up.outside user request size reply)
            (λ scanned.
              >>=-Runs key objects db fresh
                (reserve_bytes-Bare key objects db fresh up.limits user size
                  drawn.byte_reservation_id request)
                (seal_upload-Named upload filename size scanned))))

module _ (up : Uploads) (form : FileForm) (drawn : FileDraw) (request : Request)
    (objects : List Object) (db : Db)
    (fresh : exists (object_is (object_name up drawn.secret_id 1 drawn.object_uuid)) objects
      ≡ false) where
  abbrev own_key : String
  own_key = object_name up drawn.secret_id 1 drawn.object_uuid

  create_file-IsConnected :
      (user : ℕ)
      → Runs own_key objects db fresh
          (Bare own_key objects db fresh)
          (create_file up form drawn request user)
          IsConnected
  unfolding create_file
  create_file-IsConnected user =
      >>=-Runs own_key objects db fresh
        (take_in-Named up drawn.secret_id 1 user drawn request objects db fresh form.upload
          form.filename)
        (λ stored.
          >>=-Runs own_key objects db fresh (lift-Named own_key objects db fresh _) (λ emails.
            >>=-Runs own_key objects db fresh (lift-Named own_key objects db fresh _) (λ cidrs.
              >>=-Runs own_key objects db fresh (lift-Named own_key objects db fresh _) (λ _.
                >>=-Runs own_key objects db fresh (in_db-IsConnected own_key objects db fresh _)
                  (λ _. lift-IsConnected own_key objects db fresh _)))))

  -- Where Redis is there, the commits of the reservations do not fail.
  settled :
      (user : ℕ) (r : Reservation) (a : FileCreated) (s : Stage) (held : Option Reservation)
      (redis : Option Redis)
      → is_some redis ≡ true
      → (answered a s
          (recount user s.db (commit_next held (commit_next (some r) (ok tt, redis))))).0
        ≡ ok a
  unfolding commit
  settled user r a s held none h = cc
  settled user r a s none (some redis) h = refl
  settled user r a s (some r') (some redis) h = refl

  conclude-err :
      (user : ℕ) (r : Reservation) (outcome : Result FileCreated × Stage) {e : Exn} {s' : Stage}
      → up.outside.delete_works ≡ true
      → Leaves own_key objects db fresh IsConnected outcome
      → conclude up.outside user (some r) outcome ≡ (err e, s')
      → (s'.objects ≡ objects) × (content_of s'.db ≡ content_of db)
  conclude-err user r (err e', s) works h eq =
      subst (λ x. (x.objects ≡ objects) × (content_of x.db ≡ content_of db)) (ap (λ p. p.1) eq)
        (undo-objects own_key objects db fresh up.outside (some r) s works h)
  conclude-err user r (ok a, s) works h eq =
      absurd (ok-ne-err (sym (settled user r a s s.byte_reservation s.redis h) ∙ ap (λ p. p.0) eq))

  with_secret-err :
      (user : ℕ) (s : Stage) (r : Result Reservation × Option Redis) {e : Exn} {s' : Stage}
      → up.outside.delete_works ≡ true
      → is_some r.1 ≡ true
      → Bare own_key objects db fresh s
      → with_secret up form drawn request user s r ≡ (err e, s')
      → (s'.objects ≡ objects) × (content_of s'.db ≡ content_of db)
  with_secret-err user s (err e', redis) works c h eq =
      subst (λ x. (x.objects ≡ objects) × (content_of x.db ≡ content_of db)) (ap (λ p. p.1) eq)
        (h.same_objects, h.same_content)
  with_secret-err user s (ok r, redis) works c h eq =
      conclude-err user r (create_file up form drawn request user (record s { redis = redis }))
        works
        ((create_file-IsConnected user).run (record s { redis = redis })
          (record {
            same_content = h.same_content;
            same_objects = h.same_objects;
            unnamed = h.unnamed;
            connected = c;
          }))
        eq

-- A creation of a file secret that fails, at whichever step, leaves no trace but in the audit log
-- and among the pending uploads: the object storage and all other tables are as they were. Redis is
-- connected, the storage answers the deletion, and the key of the object is new.
pub create_file_secret-undone :
    (up : Uploads) (form : FileForm) (drawn : FileDraw) (request : Request) (who : CurrentUser)
    (s : Stage) {e : Exn} {s' : Stage}
    → up.outside.delete_works ≡ true
    → exists (object_is (object_name up drawn.secret_id 1 drawn.object_uuid)) s.objects ≡ false
    → s.object_key ≡ none
    → is_some s.redis ≡ true
    → create_file_secret up form drawn request who s ≡ (err e, s')
    → (s'.objects ≡ s.objects) × (content_of s'.db ≡ content_of s.db)
unfolding create_file_secret
create_file_secret-undone up form drawn request who s works fresh unnamed connected h =
    with_secret-err up form drawn request s.objects s.db fresh who.id s
      (reserve up.limits who.id 1 0 drawn.secret_reservation_id request.now s.db s.redis) works
      (reserve-connected up.limits who.id 1 0 drawn.secret_reservation_id request.now s.db s.redis
        connected)
      (record {
        same_content = refl;
        same_objects = refl;
        unnamed = unnamed;
        connected = connected;
      })
      h
