-- ===== src/Accounts/Codes.antt =====
-- The codes by which a user proves an address.
use phantom_share.Prelude.{
  ℕ, ◌+◌, ◌<◌, ◌≤◌, ◌≡◌, refl, sym, ap, ◌∙◌, String, Bool, true, false, not, some, lt→ltb, eq_iff,
  ◌==◌, arith,
}
use phantom_share.Text.{ci_eq_self}
use phantom_share.Result.{
  Result, ok, err, http, or_raise-bind-eq-ok, raise_if-bind-eq-ok, ok-injective, raise_if, ◌>>◌,
}
use phantom_share.Sql.{select_one, exists, delete, update}
use phantom_share.Sql.Laws.{
  select_one-update_self, exists-delete_narrow, exists-insert_new, select_one_sound,
}
use phantom_share.Schema.{Db, UserRow, VerificationRow, user_is}
use phantom_share.Permissions.{CurrentUser}
use phantom_share.Accounts.{Auth}
use phantom_share.Accounts.Verification.{
  answers, challenge, challenge_of, verified_user, issue, upsert, request_email_verification,
  confirm_email_verification,
}

module _ (auth : Auth) (who : CurrentUser) (code : String) where
  -- The rest of a confirmation, behind the SELECT.
  abbrev rest : ℕ → Db → UserRow → Result Db
  rest now db u =
      raise_if (not (exists (answers who.id u.email (auth.sha256_hash code) now) db.verifications))
        (http 400 "Invalid or expired verification code")
      >> ok (record db {
        verifications =
            delete (answers who.id u.email (auth.sha256_hash code) now) db.verifications;
        users = update (user_is who.id) (verified_user now) db.users;
      })

  now_verified :
      (now : ℕ) (db : Db) (u : UserRow) {db' : Db}
      → select_one (user_is who.id) db.users ≡ some u
      → rest now db u ≡ ok db'
      → select_one (user_is who.id) db'.users ≡ some (verified_user now u)
  now_verified now db u {db'} found h =
      let (there, e) = raise_if-bind-eq-ok _ _ _ {a = db'} h in
      ap (λ d. select_one (user_is who.id) d.users) (sym (ok-injective e))
      ∙ select_one-update_self (user_is who.id) (verified_user now) db.users (λ r. refl) found

  narrower :
      (now later : ℕ) (email h : String)
      → now ≤ later
      → (r : VerificationRow) → answers who.id email h later r ≡ true
      → answers who.id email h now r ≡ true
  narrower now later email h e r p = ground arith

  used_up :
      (now later : ℕ) (db : Db) (u : UserRow) {db' : Db}
      → now ≤ later
      → rest now db u ≡ ok db'
      → exists (answers who.id u.email (auth.sha256_hash code) later) db'.verifications ≡ false
  used_up now later db u {db'} h0 h =
      let (there, e) = raise_if-bind-eq-ok _ _ _ {a = db'} h in
      ap (λ d. exists (answers who.id u.email (auth.sha256_hash code) later) d.verifications)
        (sym (ok-injective e))
      ∙ exists-delete_narrow (answers who.id u.email (auth.sha256_hash code) later)
          (answers who.id u.email (auth.sha256_hash code) now) db.verifications
          (narrower now later u.email (auth.sha256_hash code) h0)

  -- A confirmation that succeeds marks the user as verified, and uses the code up: the same code is
  -- refused by 400 from then on.
  confirm_email_verification-once :
      (now later : ℕ) (db : Db) {db' : Db}
      → now ≤ later
      → confirm_email_verification auth who code now db ≡ ok db'
      → (u : UserRow) × (select_one (user_is who.id) db.users ≡ some u)
        × (select_one (user_is who.id) db'.users ≡ some (verified_user now u))
        × (confirm_email_verification auth who code later db'
            ≡ err (http 400 "Invalid or expired verification code"))
  unfolding confirm_email_verification
  confirm_email_verification-once now later db {db'} h0 h =
      let (u, found, h1) =
        or_raise-bind-eq-ok (select_one (user_is who.id) db.users) (http 401 "User not found") _
          {b = db'} h in
      let verified : select_one (user_is who.id) db'.users ≡ some (verified_user now u) =
        now_verified now db u found h1 in
      let gone : exists (answers who.id u.email (auth.sha256_hash code) later) db'.verifications
          ≡ false =
        used_up now later db u h0 h1 in
      (u, found, verified, rw (verified, gone))

  issued :
      (sends : String → Bool) (now : ℕ) (u : UserRow) (db : Db) {mail : String × String} {db' : Db}
      → issue auth u code sends now db ≡ ok (some mail, db')
      → (mail ≡ (u.email, code)) × (db' ≡ upsert auth (challenge auth u code now) db)
  unfolding issue
  issued sends now u db h = ground arith

  requested :
      (sends : String → Bool) (now : ℕ) (db : Db) {u : UserRow} {mail : String × String} {db' : Db}
      → select_one (user_is who.id) db.users ≡ some u
      → request_email_verification auth who code sends now db ≡ ok (some mail, db')
      → issue auth u code sends now db ≡ ok (some mail, db')
  unfolding request_email_verification
  requested sends now db {u} found h = ground arith

  mailed_there :
      (now later : ℕ) (db : Db) (u : UserRow)
      → (u.id == who.id) ≡ true
      → later < now + 900000000
      → exists
          (answers who.id u.email (auth.sha256_hash code) later)
          (upsert auth (challenge auth u code now) db).verifications
        ≡ true
  unfolding upsert
  mailed_there now later db u same h0 =
      exists-insert_new (answers who.id u.email (auth.sha256_hash code) later)
        (challenge auth u code now) (delete (challenge_of u.id) db.verifications)
        (rw (
          same,
          ci_eq_self u.email,
          (eq_iff (auth.sha256_hash code) (auth.sha256_hash code)).1 refl,
          lt→ltb later (now + 900000000) h0,
        ))

  same_users :
      (now : ℕ) (db : Db) (u : UserRow)
      → select_one (user_is who.id) db.users ≡ some u
      → select_one (user_is who.id) (upsert auth (challenge auth u code now) db).users ≡ some u
  unfolding upsert
  same_users now db u found = found

  confirmed :
      (now later : ℕ) (db : Db) (u : UserRow)
      → select_one (user_is who.id) db.users ≡ some u
      → later < now + 900000000
      → (after : Db) × (confirm_email_verification auth who code later
            (upsert auth (challenge auth u code now) db)
          ≡ ok after)
        × (select_one (user_is who.id) after.users ≡ some (verified_user later u))
  unfolding confirm_email_verification
  confirmed now later db u found h0 =
      let db' = upsert auth (challenge auth u code now) db in
      let still : select_one (user_is who.id) db'.users ≡ some u = same_users now db u found in
      let there =
        mailed_there now later db u (select_one_sound (user_is who.id) db.users found) h0 in
      (
        record db' {
          verifications =
              delete (answers who.id u.email (auth.sha256_hash code) later) db'.verifications;
          users = update (user_is who.id) (verified_user later) db'.users;
        },
        rw (still, there),
        select_one-update_self (user_is who.id) (verified_user later) db'.users (λ r. refl) still,
      )

  -- The code that is mailed confirms the address of its user for fifteen minutes: at any time before
  -- they have passed, the confirmation of what the request mailed succeeds.
  pub confirm-request :
      (sends : String → Bool) (now later : ℕ) (db : Db) {u : UserRow} {mail : String × String}
      {db' : Db}
      → select_one (user_is who.id) db.users ≡ some u
      → request_email_verification auth who code sends now db ≡ ok (some mail, db')
      → later < now + 900000000
      → (mail ≡ (u.email, code))
        × (after : Db) × (confirm_email_verification auth who mail.1 later db' ≡ ok after)
        × (select_one (user_is who.id) after.users ≡ some (verified_user later u))
  confirm-request sends now later db {u} {mail} {db'} found h h0 =
      let (sent, stored) = issued sends now u db (requested sends now db found h) in
      let (after, done, verified) = confirmed now later db u found h0 in
      (sent, after, rw (sent, stored) done, verified)
