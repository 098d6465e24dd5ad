-- ===== src/Admin/Calls.antt =====
-- Requests to the routes of app/routers/admin.py that change users, behind the check of the caller,
-- and the sweeps between them.
use phantom_share.Prelude.{ℕ, String, Option, List, [], ◌∷◌}
use phantom_share.Result.{Result, ok, err, ◌>>=◌}
use phantom_share.Schema.{Db}
use phantom_share.Permissions.{Role, CurrentUser, require_admin}
use phantom_share.Versions.Inserts.{Request}
use phantom_share.Accounts.{Auth, get_current_user}
use phantom_share.Cleanup.{sweep}
use phantom_share.Admin.{change_role, switch_user_activation}

pub data Command : Type 0 where
  set_role : ℕ → Role → Command
  switch : ℕ → Command

pub record Call : Type 0 where
  pub credentials : Option String
  pub command : Command
  pub request : Request

-- A request to one of the two routes, or a sweep.
pub data Event : Type 0 where
  called : Call → Event
  swept : ℕ → Event

abbrev pub after {ℓ} : {A : Type ℓ} → Db → Result (A × Db) → Db
after db (ok (a, db')) = db'
after db (err e) = db

unfoldable pub perform : Command → CurrentUser → Request → Db → Db
perform (set_role id role) who request db = after db (change_role id role who request db)
perform (switch id) who request db = after db (switch_user_activation id who request db)

module _ (auth : Auth) where
  -- `Depends(require_admin)`, on the tables of the request.
  unfoldable pub caller : Call → Db → Result CurrentUser
  unfolding get_current_user require_admin
  caller c db = get_current_user auth c.credentials c.request.now db >>= require_admin

  abbrev pub answered : Call → Result CurrentUser → Db → Db
  answered c (err e) db = db
  answered c (ok who) db = perform c.command who c.request db

  abbrev pub step : Event → Db → Db
  step (called c) db = answered c (caller c db) db
  step (swept now) db = sweep now db

  unfoldable pub run : List Event → Db → Db
  unfolding caller perform sweep
  run [] db = db
  run (e ∷ es) db = run es (step e db)
