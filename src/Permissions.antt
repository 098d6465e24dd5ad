-- ===== src/Permissions.antt =====
-- app/core/permissions.py: roles, and who may manage a secret.
pub mod Laws
use Prim.Native.Char.{code}
use phantom_share.Prelude.{
  ℕ, ◌-◌, String, Bool, true, false, not, ◌&&◌, Option, none, some, List, [], ◌∷◌, map, ltb, leb,
  ◌==◌, if◌then◌else◌,
}
use phantom_share.Text.{upper, same_codes}
use phantom_share.Result.{Exn, http, value_error, Result, ok, err, ◌>>=◌, ◌>>◌, raise_if}

pub data Role : Type 0 where
  readonly user admin : Role

-- The value of the IntEnum.
abbrev pub level : Role → ℕ
level readonly = 0
level user = 1
level admin = 2

-- `Role.from_str`; `none` is its ValueError.
unfoldable pub from_str : String → Option Role
unfolding upper same_codes
from_str role =
    let name = upper role in
    if same_codes name (upper "READONLY")
    then some readonly
    else if same_codes name (upper "USER")
    then some user
    else if same_codes name (upper "ADMIN")
    then some admin
    else none

-- The dict of the authenticated user.
pub record CurrentUser : Type 0 where
  pub id : ℕ
  pub email : String
  pub role : String
  pub is_active : Bool
  pub is_verified : Bool

abbrev pub role_or_raise : Option Role → Result Role
role_or_raise none = err (http 403 "Invalid role assigned to account")
role_or_raise (some r) = ok r

-- The detail "Requires '…' role or higher".
abbrev pub requires : Role → String
requires readonly = "Requires 'readonly' role or higher"
requires user = "Requires 'user' role or higher"
requires admin = "Requires 'admin' role or higher"

-- `_require_role(minimum_role)`
unfoldable pub require_role : Role → CurrentUser → Result CurrentUser
require_role minimum who = do
  raise_if (not who.is_active) (http 403 "Account is deactivated")
  user_level ← role_or_raise (from_str who.role)
  raise_if (ltb (level user_level) (level minimum)) (http 403 (requires minimum))
  ok who

unfoldable pub require_user : CurrentUser → Result CurrentUser
unfolding require_role
require_user = require_role user

unfoldable pub require_admin : CurrentUser → Result CurrentUser
unfolding require_role
require_admin = require_role admin

abbrev pub role_or_readonly : Option Role → Role
role_or_readonly none = readonly
role_or_readonly (some r) = r

abbrev pub claim_ownership : Option ℕ → CurrentUser → Result (Unit {0})
claim_ownership none who =
    err (http 403 "This secret was created anonymously and cannot be managed")
claim_ownership (some owner) who =
    raise_if (not (owner == who.id)) (http 403 "You do not have permission to access this secret")

unfoldable pub require_owns_secret : Option ℕ → CurrentUser → Result (Unit {0})
require_owns_secret owner who =
    if leb (level admin) (level (role_or_readonly (from_str who.role)))
    then ok tt
    else claim_ownership owner who
