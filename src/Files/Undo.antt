-- ===== src/Files/Undo.antt =====
-- What an upload that fails leaves behind.
use mathlib.Core.Path.{subst}
use phantom_share.Prelude.{
  eq_iff, ℕ, ◌≡◌, ◌⊎◌, inl, inr, refl, ◌∙◌, String, Bool, true, false, Option, none, some, List, [],
  is_some, arith, Bool-cases,
}
use phantom_share.Result.{Result, ok, err}
use phantom_share.Sql.{exists, insert, delete}
use phantom_share.Sql.Laws.{delete-insert, delete-none}
use phantom_share.Schema.{Db, PendingRow}
use phantom_share.Crypto.{Bytes}
use phantom_share.Audit.{log_warning, log, insert_entry}
use phantom_share.Quota.{Reservation, answer, reserve}
use phantom_share.Quota.Scripts.{Limits, Redis, Verdict, granted, secrets_exceeded, bytes_exceeded}
use phantom_share.Versions.Inserts.{Request}
use phantom_share.Files.{Object, object_is}
use phantom_share.Files.Stage.{
  Stage, Try, continue, ◌>>=◌, lift, in_db, Outside, refuse_malware, reserve_bytes, announce,
  name_object, store, undo, hold, commit_or_keep,
}

-- The tables, the audit log and the pending uploads apart.
abbrev pub content_of : Db → Db
content_of db = record db { pending_uploads = []; audit_logs = [] }

answer-connected :
    (r : Reservation) (limits : Limits) (v : Verdict × Redis) → is_some (answer r limits v).1 ≡ true
answer-connected r limits (granted, redis) = refl
answer-connected r limits (secrets_exceeded now, redis) = refl
answer-connected r limits (bytes_exceeded now, redis) = refl

pub reserve-connected :
    (limits : Limits) (user secrets bytes id now : ℕ) (db : Db) (redis : Option Redis)
    → is_some redis ≡ true
    → is_some (reserve limits user secrets bytes id now db redis).1 ≡ true
unfolding reserve
reserve-connected limits user secrets bytes id now db none h = h
reserve-connected limits user secrets bytes id now db (some redis) h = answer-connected _ _ _

announce-content :
    (row : PendingRow) (db db' : Db)
    → announce row db ≡ ok (tt, db')
    → content_of db' ≡ content_of db
unfolding announce
announce-content row db db' h = ground arith

-- Between two steps of an upload under `key`, before the object has its key and after that: the
-- tables hold what they held in `db`, and the object is the only new one.
pub record IsBare (objects : List Object) (db : Db) (s : Stage) : Type 0 where
  pub same_content : content_of s.db ≡ content_of db
  pub same_objects : s.objects ≡ objects
  pub unnamed : s.object_key ≡ none
  pub connected : is_some s.redis ≡ true

pub record IsNamed (key : String) (objects : List Object) (db : Db) (s : Stage) : Type 0 where
  pub same_content : content_of s.db ≡ content_of db
  pub others : delete (object_is key) s.objects ≡ objects
  pub named : s.object_key ≡ some key
  pub connected : is_some s.redis ≡ true

abbrev pub IsConnected : Stage → Type 0
IsConnected s = is_some s.redis ≡ true

module _ (key : String) (objects : List Object) (db : Db)
    (fresh : exists (object_is key) objects ≡ false) where
  abbrev pub Bare : Stage → Type 0
  Bare = IsBare objects db

  abbrev pub Named : Stage → Type 0
  Named = IsNamed key objects db

  -- Where a step returns, `P` holds of the stage, and where it raises, the stage is one or the other.
  abbrev pub Leaves : {A : Type 0} → (Stage → Type 0) → Result A × Stage → Type 0
  Leaves P (err e, s) = Bare s ⊎ Named s
  Leaves P (ok a, s) = P s

  pub record Runs {A : Type 0} (P : Stage → Type 0) (m : Try A) (Q : Stage → Type 0) : Type 0 where
    pub run : (s : Stage) → P s → Leaves Q (m s)

  continue-Leaves :
      {A B : Type 0} (P Q : Stage → Type 0) (f : A → Try B) (r : Result A × Stage)
      → Leaves P r
      → ((a : A) → Runs P (f a) Q)
      → Leaves Q (continue f r)
  continue-Leaves P Q f (err e, s) h hf = h
  continue-Leaves P Q f (ok a, s) h hf = (hf a).run s h

  pub >>=-Runs :
      {A B : Type 0} {P Q S : Stage → Type 0} {m : Try A} {f : A → Try B}
      → Runs P m Q
      → ((a : A) → Runs Q (f a) S)
      → Runs P (m >>= f) S
  unfolding ◌>>=◌
  >>=-Runs {Q} {S} {m} {f} hm hf = record {
    run = λ s h. continue-Leaves Q S f (m s) (hm.run s h) hf;
  }

  pub lift-Bare : {A : Type 0} (r : Result A) → Runs Bare (lift r) Bare
  lift-Bare (ok a) = record { run = λ s h. h }
  lift-Bare (err e) = record { run = λ s h. inl h }

  pub lift-Named : {A : Type 0} (r : Result A) → Runs Named (lift r) Named
  lift-Named (ok a) = record { run = λ s h. h }
  lift-Named (err e) = record { run = λ s h. inr h }

  pub refuse_malware-Bare :
      (outside : Outside) (user : ℕ) (request : Request) (size : ℕ) (reply : Bool × String)
      → Runs Bare (refuse_malware outside user request size reply) Bare
  unfolding refuse_malware log_warning log insert_entry
  refuse_malware-Bare outside user request size (true, detail) = record { run = λ s h. h }
  refuse_malware-Bare outside user request size (false, detail) = record {
    run = λ s h. inl (record {
      same_content = ground (arith, h.same_content);
      same_objects = h.same_objects;
      unnamed = h.unnamed;
      connected = h.connected;
    });
  }

  hold-Bare :
      (r : Result Reservation × Option Redis) (s : Stage)
      → is_some r.1 ≡ true
      → Bare s
      → Leaves Bare (hold r s)
  hold-Bare (ok r, redis) s c h = record {
    same_content = h.same_content;
    same_objects = h.same_objects;
    unnamed = h.unnamed;
    connected = c;
  }
  hold-Bare (err e, redis) s c h = inl (record {
    same_content = h.same_content;
    same_objects = h.same_objects;
    unnamed = h.unnamed;
    connected = c;
  })

  commit-Named :
      (r : Result (Unit {0} × Db)) (s : Stage)
      → Named s
      → ((db' : Db) → r ≡ ok (tt, db') → content_of db' ≡ content_of s.db)
      → Leaves Named (commit_or_keep r s)
  commit-Named (err e) s h same = inr h
  commit-Named (ok (u, db')) s h same = record {
    same_content = same db' refl ∙ h.same_content;
    others = h.others;
    named = h.named;
    connected = h.connected;
  }

  pub reserve_bytes-Bare :
      (limits : Limits) (user size id : ℕ) (request : Request)
      → Runs Bare (reserve_bytes limits user size id request) Bare
  unfolding reserve_bytes
  reserve_bytes-Bare limits user size id request = record {
    run = λ s h.
        hold-Bare (reserve limits user 0 size id request.now s.db s.redis) s
          (reserve-connected limits user 0 size id request.now s.db s.redis h.connected) h;
  }

  pub name_object-Named : Runs Bare (name_object key) Named
  unfolding name_object
  name_object-Named = record {
    run = λ s h. record {
      same_content = h.same_content;
      others = rw h.same_objects (delete-none (object_is key) objects fresh);
      named = refl;
      connected = h.connected;
    };
  }

  pub announce-Named : (row : PendingRow) → Runs Named (in_db (announce row)) Named
  announce-Named row = record {
    run = λ s h. commit-Named (announce row s.db) s h (announce-content row s.db);
  }

  stored_away : (o : Object) → o.key ≡ key → delete (object_is key) (insert o objects) ≡ objects
  stored_away o e =
      subst (λ x. delete (object_is key) (insert o x) ≡ objects)
        (delete-none (object_is key) objects fresh)
        (delete-insert (object_is key) o objects (rw e ((eq_iff key key).1 refl)) fresh)

  pub store-Named : (outside : Outside) (bytes : Bytes) → Runs Named (store outside key bytes) Named
  unfolding store
  store-Named outside bytes = record {
    run = λ s h. elim (Bool-cases outside.upload_works) [
      | inl works ↦ rw works (record {
        same_content = h.same_content;
        others = rw h.others (stored_away (record { key = key; bytes = bytes }) refl);
        named = h.named;
        connected = h.connected;
      })
      | inr fails ↦ rw fails (inr h)
    ];
  }

  commit-IsConnected :
      {A : Type 0} (r : Result (A × Db)) (s : Stage)
      → Named s
      → Leaves IsConnected (commit_or_keep r s)
  commit-IsConnected (err e) s h = inr h
  commit-IsConnected (ok (a, db')) s h = h.connected

  pub in_db-IsConnected : {A : Type 0} (t : Db → Result (A × Db)) → Runs Named (in_db t) IsConnected
  in_db-IsConnected t = record { run = λ s h. commit-IsConnected (t s.db) s h }

  pub lift-IsConnected : {A : Type 0} (a : A) → Runs IsConnected (lift (ok a)) IsConnected
  lift-IsConnected a = record { run = λ s h. h }

  -- The `except` block: the object is gone.
  pub undo-objects :
      (outside : Outside) (r : Option Reservation) (s : Stage)
      → outside.delete_works ≡ true
      → Bare s ⊎ Named s
      → ((undo outside r s).objects ≡ objects) × (content_of (undo outside r s).db ≡ content_of db)
  undo-objects outside r s works (inl h) = (rw h.unnamed h.same_objects, h.same_content)
  undo-objects outside r s works (inr h) = (rw (h.named, works) h.others, h.same_content)
