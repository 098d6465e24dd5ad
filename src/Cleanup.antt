-- ===== src/Cleanup.antt =====
-- app/services/cleanup_service.py: the locks, the deletion of one expired secret, the sweep, and the
-- deletion of orphaned objects.
pub mod Absence
pub mod Backoff
pub mod Locks
pub mod Storage
pub mod Sweep
pub mod Worker
use phantom_share.Prelude.{
  ℕ, suc, ◌+◌, ◌*◌, String, Bool, true, false, not, ◌&&◌, ◌||◌, Option, none, some, List, [], ◌∷◌,
  ◌==◌, leb, ltb, is_some, length, if◌then◌else◌, str_eq,
}
use phantom_share.Result.{Exn, runtime_error, Result, ok, err}
use phantom_share.Sql.{select_one, select, insert, update, delete, exists}
use phantom_share.Schema.{
  Db, UserRow, SecretRow, SessionRow, TrackingRow, VerificationRow, OutboxRow, PendingRow, str,
  secret_is, delete_secrets,
}
use phantom_share.Audit.{Entry, log}

abbrev pub second : ℕ
second = 1_000_000

-- A lock of Redis: its key, the token of its owner, and when it expires.
pub record Lock : Type 0 where
  pub key : String
  pub token : String
  pub expires_at : ℕ

abbrev pub held : String → ℕ → Lock → Bool
held key now l = str_eq l.key key && ltb now l.expires_at

abbrev pub lock_is : String → Lock → Bool
lock_is key l = str_eq l.key key

-- `acquire_lock`: SET key token NX EX ttl.
unfoldable pub acquire_lock : String → ℕ → String → ℕ → List Lock → Option String × List Lock
acquire_lock key ttl token now locks = if exists (held key now) locks then (none, locks) else (
  some token,
  insert (record { key = key; token = token; expires_at = now + ttl * second })
      (delete (lock_is key) locks),
)

abbrev owns : String → Option Lock → Bool
owns token none = false
owns token (some l) = str_eq l.token token

-- `release_lock`: the script that deletes the key where GET returns the token.
unfoldable pub release_lock : String → String → ℕ → List Lock → List Lock
release_lock key token now locks =
    if owns token (select_one (held key now) locks) then delete (lock_is key) locks else locks

abbrev pub is_ref : List UserRow → (UserRow → Bool) → ℕ → Bool
is_ref users p id = exists (λ u. p u && u.id == id) users

abbrev pub unless_gone : List UserRow → (UserRow → Bool) → Option ℕ → Option ℕ
unless_gone users p none = none
unless_gone users p (some id) = if is_ref users p id then none else some id

abbrev pub is_tracked_by : List TrackingRow → (TrackingRow → Bool) → ℕ → Bool
is_tracked_by tracking p id = exists (λ t. p t && t.secret_id == id) tracking

-- `DELETE FROM secret_tracking WHERE p`, which deletes the views with it.
unfoldable pub delete_tracking : (TrackingRow → Bool) → Db → Db
delete_tracking p db = record db {
  tracking = delete p db.tracking;
  views = delete (λ v. is_tracked_by db.tracking p v.secret_id) db.views;
}

-- `DELETE FROM users WHERE p`, with ON DELETE CASCADE and ON DELETE SET NULL.
unfoldable pub delete_users : (UserRow → Bool) → Db → Db
unfolding delete_tracking
delete_users p db =
    let db1 = delete_tracking (λ t. is_ref db.users p t.owner_id) db in
    record db1 {
      users = delete p db.users;
      sessions = delete (λ s. is_ref db.users p s.user_id) db.sessions;
      verifications = delete (λ v. is_ref db.users p v.user_id) db.verifications;
      pending_uploads = delete (λ u. is_ref db.users p u.user_id) db.pending_uploads;
      quotas = delete (λ q. is_ref db.users p q.user_id) db.quotas;
      secrets =
          update (λ _. true) (λ s. record s { owner_id = unless_gone db.users p s.owner_id })
            db.secrets;
      secret_versions =
          update (λ _. true) (λ v. record v { created_by = unless_gone db.users p v.created_by })
            db.secret_versions;
      views =
          update (λ _. true) (λ v. record v { viewer_id = unless_gone db.users p v.viewer_id })
            db1.views;
      outbox =
          update (λ _. true) (λ o. record o { user_id = unless_gone db.users p o.user_id })
            db.outbox;
      audit_logs =
          update (λ _. true) (λ a. record a { actor_id = unless_gone db.users p a.actor_id })
            db.audit_logs;
    }

abbrev pub is_over : ℕ → SecretRow → Bool
is_over now s = ltb s.expires_at now || leb s.max_views s.view_count

abbrev reached : ℕ → Option ℕ → Bool
reached now none = false
reached now (some t) = leb t now

abbrev pub is_removable : ℕ → UserRow → Bool
is_removable now u = not u.is_active && reached now u.delete_after

abbrev pub is_dead : ℕ → SessionRow → Bool
is_dead now s = s.revoked || leb s.expires_at now

abbrev pub without_sessions : (SessionRow → Bool) → Db → Db
without_sessions p db = record db { sessions = delete p db.sessions }

abbrev pub without_verifications : (VerificationRow → Bool) → Db → Db
without_verifications p db = record db { verifications = delete p db.verifications }

-- The transaction of `_fallback_sweep`, up to the users, and as a whole.
unfoldable pub without_users : ℕ → Db → Db
unfolding delete_users
without_users now db = delete_users (is_removable now) (delete_secrets (is_over now) now db)

unfoldable pub sweep : ℕ → Db → Db
unfolding delete_tracking without_users
sweep now db = without_sessions (is_dead now) (
    without_verifications (λ v. leb v.expires_at now)
      (delete_tracking (λ t. leb t.retain_until now) (without_users now db)))

abbrev pub deleted_entry : ℕ → String → String → Entry
deleted_entry id reason source = record {
  action = "secret_deleted";
  actor_id = none;
  actor_ip = none;
  secret_id = some id;
  metadata = ("reason", str reason) ∷ ("source", str source) ∷ [];
}

abbrev pub removed_entry : ℕ → Entry
removed_entry id = record {
  action = "user_removed";
  actor_id = some id;
  actor_ip = none;
  secret_id = none;
  metadata = ("reason", str "user_inactive") ∷ ("source", str "fallback_sweep") ∷ [];
}
