-- ===== src/Permissions/Laws.antt =====
-- Who passes the checks of app/core/permissions.py.
use phantom_share.Prelude.{ℕ, ◌≤◌, ◌≡◌, ◌⊎◌, inl, inr, Option, some, arith, Option-cases}
use phantom_share.Result.{ok}
use phantom_share.Permissions.{
  Role, admin, level, from_str, CurrentUser, require_role, require_owns_secret,
}

-- Whoever passes the check for a role passes the check for every role of at most its level.
pub require_role_mono :
    (r s : Role) (who : CurrentUser)
    → level s ≤ level r
    → require_role r who ≡ ok who
    → require_role s who ≡ ok who
unfolding require_role
require_role_mono r s who h e = elim (Option-cases (from_str who.role)) [
  | inl bad ↦ ground arith
  | inr (role, found) ↦ ground arith
]

-- The ownership check passes exactly when the user has the role admin or is the recorded owner.
require_owns_secret_iff :
    (owner : Option ℕ) (who : CurrentUser)
    → (require_owns_secret owner who ≡ ok tt
        → (from_str who.role ≡ some admin) ⊎ (owner ≡ some who.id))
      × ((from_str who.role ≡ some admin) ⊎ (owner ≡ some who.id)
          → require_owns_secret owner who ≡ ok tt)
unfolding require_owns_secret
require_owns_secret_iff owner who = (ground arith, ground arith)
