-- ===== src/Vault/Simulation.antt =====
-- The transactions on a managed secret do what the vault says, in any order.
use mathlib.Core.Path.{subst}
use phantom_share.Prelude.{
  ℕ, suc, ◌+◌, ◌≡◌, inl, inr, refl, sym, ap, ◌∙◌, String, true, false, Option, none, some, List, [],
  ◌∷◌, ◌==◌, ◌++◌, length, arith,
}
use phantom_share.Result.{Result, ok, err, ok-state, ok-value}
use phantom_share.Sql.{select_one, exists}
use phantom_share.Schema.{Db, SecretRow, secret_is, user_is}
use phantom_share.Permissions.{CurrentUser}
use phantom_share.Crypto.{Primitives, Draw}
use phantom_share.Keys.{rotate_key}
use phantom_share.Keys.Rotation.{rotate_key-Rotated}
use phantom_share.Versions.{update_secret, restore_secret_version, check_update, check_restore}
use phantom_share.Versions.Inserts.{Request, SecretUpdate, SecretUpdateResponse}
use phantom_share.Versions.Update.{update_secret-Appended}
use phantom_share.Versions.Restore.{restore_secret_version-Appended}
use phantom_share.Secrets.Guards.{SecretContent, check_view}
use phantom_share.Secrets.Retrieve.{retrieve}
use phantom_share.Secrets.Retrieve.Burn.{remaining, retrieve-Uses}
use phantom_share.Secrets.Manage.{delete_owned}
use phantom_share.Secrets.Manage.Deletion.{delete_owned-Deleted}
use phantom_share.Vault.{
  Vault, Command, Reply, Step, Lives, Run, IsKnown, execute, answer, with_reply, after_view, update,
  restore, rotate, read, delete, written, rotated, deleted, shown, updates, restores, rotates,
  reads, deletes,
}
use phantom_share.Vault.Holds.{
  Holds, Appended-Holds, Rotated-Holds, Kept-Holds, nth-open_version, last_text,
}
use phantom_share.Vault.Reading.{Viewed, retrieve-Viewed}

-- The tables hold a vault, or nothing of the secret.
abbrev pub Stands : Primitives → ℕ → Db → Option Vault → Type 0
Stands prims id db none = select_one (secret_is id) db.secrets ≡ none
Stands prims id db (some v) = Holds prims id db v

answer-eq-ok {ℓ} :
    {A : Type ℓ} (f : A → Reply) (m : Result (A × Db)) {r : Reply} {db : Db}
    → answer f m ≡ ok (r, db)
    → (a : A) × (m ≡ ok (a, db)) × (r ≡ f a)
answer-eq-ok f (err e) h = cc
answer-eq-ok f (ok (a, db')) h = (a, ap (λ d. ok (a, d)) (ok-state h), sym (ok-value h))

with_reply-eq-ok :
    (s : Reply) (m : Result Db) {r : Reply} {db : Db}
    → with_reply s m ≡ ok (r, db)
    → (m ≡ ok db) × (r ≡ s)
with_reply-eq-ok s (err e) h = cc
with_reply-eq-ok s (ok db') h = (ap ok (ok-state h), sym (ok-value h))

module _ (prims : Primitives) (max id : ℕ) where
  -- A command that was let through, the vault after it, and that the tables hold it.
  abbrev Moves : Vault → Command → Reply → Db → Type 0
  Moves v c r db' = (v' : Option Vault) × Step v c r v' × Stands prims id db' v'

  update-Moves :
      (v : Vault) (body : SecretUpdate) (request : Request) (who : CurrentUser) (draw : Draw)
      (db : Db) {r : Reply} {db' : Db}
      → Holds prims id db v
      → exists (user_is who.id) db.users ≡ true
      → db.is_inet request.client_ip ≡ true
      → execute prims max id (update body request who draw) db ≡ ok (r, db')
      → Moves v (update body request who draw) r db'
  unfolding execute
  update-Moves v body request who draw db {r} {db'} h known inet e =
      let (resp, done, reply) =
        answer-eq-ok (λ (a : SecretUpdateResponse). written a.version)
          (update_secret prims max id body request who draw db) e in
      let (at, number, a) =
        update_secret-Appended prims max id body request who draw db h.managed {resp = resp}
          {db' = db'} known inet done in
      let expected : body.expected_version ≡ length v.texts = sym at ∙ h.last in
      (
        some (record v { texts = v.texts ++ body.content ∷ [] }),
        subst
            (λ s.
              Step v (update body request who draw) s
                (some (record v { texts = v.texts ++ body.content ∷ [] })))
            (sym (reply ∙ ap written (number ∙ ap (λ (n : ℕ). n + 1) expected)))
            (updates v body request who draw expected),
        Appended-Holds prims id db v h body.content db' a,
      )

  restore-Moves :
      (v : Vault) (n : ℕ) (request : Request) (who : CurrentUser) (draw : Draw) (db : Db)
      {r : Reply} {db' : Db}
      → Holds prims id db v
      → exists (user_is who.id) db.users ≡ true
      → db.is_inet request.client_ip ≡ true
      → execute prims max id (restore n request who draw) db ≡ ok (r, db')
      → Moves v (restore n request who draw) r db'
  unfolding execute
  restore-Moves v n request who draw db {r} {db'} h known inet e =
      let (resp, done, reply) =
        answer-eq-ok (λ (a : SecretUpdateResponse). written a.version)
          (restore_secret_version prims max id (suc n) request who draw db) e in
      let (p, opens, number, a) =
        restore_secret_version-Appended prims max id (suc n) request who draw db h.managed
          {resp = resp} {db' = db'} known inet done in
      (
        some (record v { texts = v.texts ++ p ∷ [] }),
        subst
            (λ s.
              Step v (restore n request who draw) s (some (record v { texts = v.texts ++ p ∷ [] })))
            (sym (reply ∙ ap written (number ∙ ap (λ (n : ℕ). n + 1) h.last)))
            (restores v n p request who draw (nth-open_version prims id db v h n p opens)),
        Appended-Holds prims id db v h p db' a,
      )

  rotate-Moves :
      (v : Vault) (draw : Draw) (now : ℕ) (db : Db) {r : Reply} {db' : Db}
      → Holds prims id db v
      → execute prims max id (rotate draw now) db ≡ ok (r, db')
      → Moves v (rotate draw now) r db'
  unfolding execute
  rotate-Moves v draw now db {r} {db'} h e =
      let (n, done, reply) =
        answer-eq-ok (λ (n : ℕ). rotated) (rotate_key prims id draw now db) e in
      (
        some v,
        subst (λ s. Step v (rotate draw now) s (some v)) (sym reply) (rotates v draw now),
        Rotated-Holds prims id db v h db'
            (rotate_key-Rotated prims id draw now db h.managed {n = n} {db' = db'} done).1,
      )

  delete-Moves :
      (v : Vault) (request : Request) (who : CurrentUser) (db : Db) {r : Reply} {db' : Db}
      → execute prims max id (delete request who) db ≡ ok (r, db')
      → Moves v (delete request who) r db'
  unfolding execute
  delete-Moves v request who db {r} {db'} e =
      let (done, reply) = with_reply-eq-ok deleted (delete_owned id request who db) e in
      let (row, found, owns, gone) = delete_owned-Deleted id request who db {db' = db'} done in
      (
        none,
        subst (λ s. Step v (delete request who) s none) (sym reply) (deletes v request who),
        gone.secret,
      )

  after_view-Stands :
      (v : Vault) (db db' : Db) (h : Holds prims id db v) (n : ℕ)
      → remaining id db' ≡ n
      → Viewed id h.managed.secret db db'
      → Stands prims id db' (after_view v.texts n)
  after_view-Stands v db db' h n e (inl (used_up, gone)) =
      let last : (n == 0) ≡ true = ground (arith, e, used_up) in rw last gone
  after_view-Stands v db db' h n e (inr (more, k)) =
      let not_last : (n == 0) ≡ false = ground (arith, e, more) in
      rw not_last (Kept-Holds prims id db v h n db' k e)

  read-Moves :
      (v : Vault) (password : Option String) (policy_version : ℕ) (request : Request)
      (u : Option CurrentUser) (db : Db) {r : Reply} {db' : Db}
      → Holds prims id db v
      → execute prims max id (read password policy_version request u) db ≡ ok (r, db')
      → Moves v (read password policy_version request u) r db'
  unfolding execute
  read-Moves v password policy_version request u db {r} {db'} h e =
      let (a, done, reply) =
        answer-eq-ok
          (λ (a : SecretContent × SecretRow). shown a.0.content a.0.views_remaining a.0.version)
          (retrieve prims id password policy_version request u db) e in
      let (opens, number, viewed) =
        retrieve-Viewed prims id password policy_version request u db h.managed {a = a} {db' = db'}
          done in
      let (uses, views_left) =
        retrieve-Uses prims id password policy_version request u db {a = a} {db' = db'} done in
      let (n, longs, there) = last_text prims id db v h a.0.content opens in
      let n' = remaining id db' in
      let views : v.views ≡ n' + 1 = sym h.views ∙ uses.0 in
      let same_reply : r ≡ shown a.0.content n' (length v.texts) =
        reply
        ∙ (ap (λ k. shown a.0.content k a.0.version) views_left
            ∙ ap (shown a.0.content n') (number ∙ h.last)) in
      (
        after_view v.texts n',
        subst (λ s. Step v (read password policy_version request u) s (after_view v.texts n'))
            (sym same_reply)
            (reads v n n' a.0.content password policy_version request u longs there views),
        after_view-Stands v db db' h n' refl viewed,
      )

  -- Nothing is let through on a secret that is gone.
  gone-refuses :
      (c : Command) (db : Db) {r : Reply} {db' : Db}
      → select_one (secret_is id) db.secrets ≡ none
      → execute prims max id c db ≡ ok (r, db')
      → ⊥
  unfolding execute update_secret check_update restore_secret_version check_restore rotate_key
      retrieve check_view delete_owned
  gone-refuses (update body request who draw) db gone e = let x = rw gone at e in cc
  gone-refuses (restore n request who draw) db gone e = let x = rw gone at e in cc
  gone-refuses (rotate draw now) db gone e = let x = rw gone at e in cc
  gone-refuses (read password policy_version request u) db gone e = let x = rw gone at e in cc
  gone-refuses (delete request who) db gone e = let x = rw gone at e in cc

  execute-Moves :
      (v : Vault) (c : Command) (db : Db) {r : Reply} {db' : Db}
      → Holds prims id db v
      → IsKnown c db
      → execute prims max id c db ≡ ok (r, db')
      → Moves v c r db'
  execute-Moves v (update body request who draw) db h (known, inet) e =
      update-Moves v body request who draw db h known inet e
  execute-Moves v (restore n request who draw) db h (known, inet) e =
      restore-Moves v n request who draw db h known inet e
  execute-Moves v (rotate draw now) db h known e = rotate-Moves v draw now db h e
  execute-Moves v (read password policy_version request u) db h known e =
      read-Moves v password policy_version request u db h e
  execute-Moves v (delete request who) db h known e = delete-Moves v request who db e

  -- Any run of updates, restorations, rotations, retrievals and deletions of one managed secret, with the
  -- answers that they gave, is a run of the vault that the tables held at its start, and the tables
  -- hold the vault at its end. So each reader is shown the newest text, a restoration brings back the
  -- text of the version that it names, a rotation changes nothing, each read counts one view down, and
  -- after the last one or a deletion nothing is let through. The actors of the updates and
  -- restorations are known users whose addresses the database takes.
  pub Run-Lives :
      (v : Option Vault) {db db' : Db} {log : List (Command × Reply)}
      → Stands prims id db v
      → Run prims max id db log db'
      → (v' : Option Vault) × Lives v log v' × Stands prims id db' v'
  Run-Lives v h (Run.rest db) = (v, Lives.rest v, h)
  Run-Lives none {db} h (Run.next {c = c} known e run) = absurd (gone-refuses c db h e)
  Run-Lives (some v) {db} h (Run.next {c = c} known e run) =
      let (v1, step, h1) = execute-Moves v c db h known e in
      let (v2, lives, h2) = Run-Lives v1 h1 run in (v2, Lives.next step lives, h2)
