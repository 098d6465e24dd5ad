-- ===== src/Secrets/Retrieve/Reads.antt =====
-- Any sequence of requests to `_retrieve_secret`, whatever their tokens, passwords and addresses.
use phantom_share.Prelude.{
  ℕ, ◌+◌, ◌≡◌, ◌≢◌, ◌⊎◌, refl, ◌∙◌, String, true, false, Option, none, some, List, [], ◌∷◌, ◌==◌,
  arith, if◌then◌else◌, Bool-cases, inl, inr,
}
use phantom_share.Result.{Result, ok, err}
use phantom_share.Schema.{Db, SecretRow, PolicyRow}
use phantom_share.Permissions.{CurrentUser}
use phantom_share.Audit.{Entry, insert_entry, log, log_warning}
use phantom_share.Versions.Inserts.{Request}
use phantom_share.ClientIp.{IpText}
use phantom_share.Location.{Verdict, Countries, conclude, authorize}
use phantom_share.Secrets.Retrieve.{retrieve, committed, go_on, retrieve_secret}
use phantom_share.Secrets.Guards.{Services, SecretContent, Notification}
use phantom_share.Secrets.Retrieve.Burn.{Uses, remaining, remaining_cong, retrieve-Uses}

pub record Attempt : Type 0 where
  pub secret_id : Option ℕ
  pub access_password : Option String
  pub token : Option String
  pub request : Request
  pub current_user : Option CurrentUser

-- 1 where the answer is the content of `id`.
abbrev pub answered : ℕ → Option ℕ → Result (SecretContent × List Notification) → ℕ
answered id none r = 0
answered id (some j) (err e) = 0
answered id (some j) (ok a) = if j == id then 1 else 0

-- The answers with the content of `id` in a run of requests, one after the other, and the tables
-- that the run leaves. A transaction holds the row lock of its secret, so this is their order.
unfoldable pub reads : Services → ℕ → List Attempt → Db → ℕ × Db
unfolding retrieve_secret
reads services id [] db = (0, db)
reads services id (a ∷ attempts) db =
    let (r, db1) =
      retrieve_secret services a.secret_id a.access_password a.token a.request a.current_user db in
    let (n, db2) = reads services id attempts db1 in (answered id a.secret_id r + n, db2)

log_warning-secrets : (e : Entry) (now : ℕ) (db : Db) → (log_warning e now db).secrets ≡ db.secrets
unfolding log_warning log insert_entry
log_warning-secrets e now db = ground arith

conclude-secrets :
    (ip : IpText) (countries : Countries) (id : ℕ) (client_ip : String) (now : ℕ)
    (r : Result (PolicyRow × Verdict)) (db : Db)
    → (conclude ip countries id client_ip now r db).1.secrets ≡ db.secrets
conclude-secrets ip countries id client_ip now (err e) db = refl
conclude-secrets ip countries id client_ip now (ok (row, v)) db = elim (Bool-cases v.allowed) [
  | inl free ↦ rw free
  | inr denied ↦ rw denied (log_warning-secrets _ now db)
]

authorize-secrets :
    (services : Services) (id : ℕ) (token : Option String) (client_ip : String) (now : ℕ) (db : Db)
    → (authorize services.ip services.country_for_ip services.signing id token client_ip now
        db).1.secrets
      ≡ db.secrets
unfolding authorize
authorize-secrets services id token client_ip now db =
    conclude-secrets services.ip services.country_for_ip id client_ip now _ db

same-cases : (j id : ℕ) → (j ≡ id) × ((j == id) ≡ true) ⊎ (id ≢ j) × ((j == id) ≡ false)
same-cases j id = ground arith

own_view :
    (j id : ℕ) (db db' : Db)
    → j ≡ id
    → remaining j db ≡ remaining j db' + 1
    → remaining id db ≡ remaining id db' + 1
own_view j id db db' e h = rw e at h

plus_one : (a b : ℕ) → a ≡ b + 1 → 1 + b ≡ a
plus_one a b e = omega arith

-- A rolled-back transaction uses nothing, and a committed one uses a view.
committed-counts :
    (id j : ℕ) (client_ip : String) (r : Result ((SecretContent × SecretRow) × Db)) (db : Db)
    → ((a : SecretContent × SecretRow) (db' : Db) → r ≡ ok (a, db') → Uses j db db')
    → answered id (some j) (committed j client_ip r db).0
        + remaining id (committed j client_ip r db).1
      ≡ remaining id db
committed-counts id j client_ip (err e) db h = omega arith
committed-counts id j client_ip (ok ((c, row), db')) db h =
    let (own, others) = h (c, row) db' refl in
    elim (same-cases j id) [
      | inl (e, on) ↦ rw on (plus_one _ _ (own_view j id db db' e own))
      | inr (ne, off) ↦ rw off (rw (others id ne) (omega arith))
    ]

go_on-counts :
    (services : Services) (id j : ℕ) (p : Option String) (request : Request)
    (u : Option CurrentUser) (r : Result ℕ) (db : Db)
    → answered id (some j) (go_on services j p request u r db).0
        + remaining id (go_on services j p request u r db).1
      ≡ remaining id db
go_on-counts services id j p request u (err e) db = omega arith
go_on-counts services id j p request u (ok v) db =
    committed-counts id j request.client_ip (retrieve services.prims j p v request u db) db
      (λ a db' h. (retrieve-Uses services.prims j p v request u db {a = a} {db' = db'} h).0)

retrieve_secret-counts :
    (services : Services) (id : ℕ) (o : Option ℕ) (p token : Option String) (request : Request)
    (u : Option CurrentUser) (db : Db)
    → answered id o (retrieve_secret services o p token request u db).0
        + remaining id (retrieve_secret services o p token request u db).1
      ≡ remaining id db
unfolding retrieve_secret
retrieve_secret-counts services id none p token request u db = omega arith
retrieve_secret-counts services id (some j) p token request u db =
    go_on-counts services id j p request u _ _
    ∙ remaining_cong id _ db (authorize-secrets services j token request.client_ip request.now db)

add_step : (a n r1 r2 r : ℕ) → n + r2 ≡ r1 → a + r1 ≡ r → a + n + r2 ≡ r
add_step a n r1 r2 r e f = omega arith

-- In any run of requests, the answers with the content of a secret and the views that it then has
-- left add up to the views that it had.
pub reads-remaining :
    (services : Services) (id : ℕ) (attempts : List Attempt) (db : Db)
    → (reads services id attempts db).0 + remaining id (reads services id attempts db).1
      ≡ remaining id db
unfolding reads
reads-remaining services id [] db = omega arith
reads-remaining services id (a ∷ attempts) db =
    let step =
      retrieve_secret services a.secret_id a.access_password a.token a.request a.current_user db in
    add_step _ _ _ _ _ (reads-remaining services id attempts step.1) (
      retrieve_secret-counts services id a.secret_id a.access_password a.token a.request
        a.current_user db)
