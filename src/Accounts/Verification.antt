-- ===== src/Accounts/Verification.antt =====
-- `request_email_verification` and `confirm_email_verification` of app/routers/auth.py.
use phantom_share.Prelude.{
  ℕ, ◌+◌, String, Bool, true, false, not, ◌&&◌, Option, none, some, ◌==◌, ltb, str_eq,
  if◌then◌else◌,
}
use phantom_share.Text.{ci_eq}
use phantom_share.Result.{http, Result, ok, ◌>>=◌, ◌>>◌, raise_if, or_raise}
use phantom_share.Sql.{select_one, insert, update, delete, exists}
use phantom_share.Schema.{Db, UserRow, VerificationRow, user_is}
use phantom_share.Permissions.{CurrentUser}
use phantom_share.Accounts.{Auth}

abbrev minute : ℕ
minute = 60_000_000

abbrev pub challenge_of : ℕ → VerificationRow → Bool
challenge_of id r = r.user_id == id

-- The WHERE of the DELETE of a confirmation.
abbrev pub answers : ℕ → String → String → ℕ → VerificationRow → Bool
answers id email h now r =
    challenge_of id r && ci_eq r.email email && str_eq r.token_hash h && ltb now r.expires_at

-- The trigger `trigger_set_updated_at` of the users sets `updated_at` on each UPDATE.
abbrev pub verified_user : ℕ → UserRow → UserRow
verified_user now u = record u { is_verified = true; updated_at = now }

-- What a request asks to be mailed: an address and a code.
abbrev pub Mail : Type 0
Mail = Option (String × String)

abbrev too_soon : ℕ → Option VerificationRow → Bool
too_soon now none = false
too_soon now (some prior) = ltb now (prior.requested_at + minute)

module _ (auth : Auth) where
  abbrev pub challenge : UserRow → String → ℕ → VerificationRow
  challenge u code now = record {
    user_id = u.id;
    email = u.email;
    token_hash = auth.sha256_hash code;
    expires_at = now + 900_000_000;
    requested_at = now;
  }

  -- INSERT … ON CONFLICT (user_id) DO UPDATE.
  unfoldable pub upsert : VerificationRow → Db → Db
  upsert row db = record db {
    verifications = insert row (delete (challenge_of row.user_id) db.verifications);
  }

  -- The challenge of a user who has to prove the address.
  unfoldable pub issue : UserRow → String → (String → Bool) → ℕ → Db → Result (Mail × Db)
  unfolding upsert
  issue u code sends now db = do
    raise_if (too_soon now (select_one (challenge_of u.id) db.verifications))
        (http 429 "Wait 60 seconds before requesting another code")
    raise_if (not (sends u.email))
        (http 503 "Verification email could not be sent; try again later")
    ok (some (u.email, code), upsert (challenge u code now) db)

  -- `request_email_verification`: `code` is drawn, and `sends` tells whether `send_code` to an address
  -- returns. A raise rolls the challenge back.
  unfoldable pub request_email_verification :
      CurrentUser → String → (String → Bool) → ℕ → Db → Result (Mail × Db)
  unfolding issue
  request_email_verification who code sends now db = do
    u ← or_raise (select_one (user_is who.id) db.users) (http 401 "User not found")
    if u.is_verified then ok (none, db) else issue u code sends now db

  -- `confirm_email_verification`
  unfoldable pub confirm_email_verification : CurrentUser → String → ℕ → Db → Result Db
  confirm_email_verification who code now db = do
    u ← or_raise (select_one (user_is who.id) db.users) (http 401 "User not found")
    let row = answers who.id u.email (auth.sha256_hash code) now
    raise_if (not (exists row db.verifications)) (http 400 "Invalid or expired verification code")
    ok (record db {
      verifications = delete row db.verifications;
      users = update (user_is who.id) (verified_user now) db.users;
    })
