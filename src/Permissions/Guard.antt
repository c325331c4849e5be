-- ===== src/Permissions/Guard.antt =====
-- common/guards: the guard of routes that need an active organization, and the guard of routes that
-- declare permissions (common/decorators/require-permissions.decorator.ts). The request is what the
-- guards read of it.
use gym_saas_be.Prelude.{
  Bool, true, false, ◌&&◌, ◌||◌, not, Option, none, some, List, Text, codes, ◌==◌, if◌then◌else◌,
  or_else,
}
use gym_saas_be.Store.{Uuid}
use gym_saas_be.Errors.{Result, ok, err, forbidden, not_found}
use gym_saas_be.Entities.{Tables, Db}
use gym_saas_be.Permissions.Service.{OwnershipContext, check_permission, build}
use gym_saas_be.Permissions.Ownership.{OwnershipResult, OwnershipValidator, Registry, get}

-- `user` is the principal's id, `path_id` the parameter `:id`, `param` any parameter by its name.
pub record Request : Type 0 where
  pub user : Option Uuid
  pub path_id : Option Uuid
  pub param : Text → Option Uuid

pub record RequirePermissionsOptions : Type 0 where
  pub permission : List Text
  pub organization_id : Option (Request → Option Uuid)
  pub resource : Option Text
  pub resource_id : Option (Request → Option Uuid)
  pub skip_ownership : Bool

-- Neither missing nor the empty string.
abbrev pub filled : Option Uuid → Bool
filled none = false
filled (some i) = not (i == 0)

abbrev pub applied : Option (Request → Option Uuid) → Request → Option Uuid
applied none request = none
applied (some f) request = f request

-- `ActiveOrgGuard.canActivate`, with the active organization of the request's context.
unfoldable pub active_org_guard : Option Uuid → Option Uuid → Result (Unit {0})
active_org_guard none path_id = err (forbidden (codes "No active organization selected"))
active_org_guard (some active) path_id =
    if active == 0
    then err (forbidden (codes "No active organization selected"))
    else if filled path_id && not (or_zero path_id == active)
    then err (forbidden (codes "Path organization does not match the active organization"))
    else ok tt
  where
    or_zero : Option Uuid → Uuid
    or_zero none = 0
    or_zero (some i) = i

-- The organization that the permission is checked in.
unfoldable pub organization_of : RequirePermissionsOptions → Request → Option Uuid → Option Uuid
organization_of options request active =
    or_else (or_else (applied options.organization_id request) request.path_id) active

unfoldable pub answer : OwnershipResult → Result (Unit {0})
answer result =
    if not result.found
    then err (not_found (codes "Resource not found"))
    else if not result.owned
    then err (forbidden (codes "Insufficient permissions for this resource"))
    else ok tt

module _ (t : Tables) where
  unfoldable pub validate_with :
      OwnershipValidator → Uuid → Option OwnershipContext → Result (Unit {0})
  unfolding answer
  validate_with validator resource_id none =
      err (forbidden (codes "An active organization is required"))
  validate_with validator resource_id (some context) =
      answer (validator.validate resource_id context)

  -- `checkOwnership` once the resource's id is known not to be empty.
  unfoldable pub check_resource : Registry → Text → Uuid → Uuid → Uuid → Db t → Result (Unit {0})
  unfolding get validate_with build
  check_resource registry resource resource_id user_id organization_id db =
      elim (get resource registry) [
        | none ↦ err (forbidden (codes "No ownership validator registered for this resource"))
        | some validator ↦ validate_with validator resource_id (build t user_id organization_id db)
      ]

  unfoldable pub check_ownership :
      Registry → Text → Option Uuid → Uuid → Uuid → Db t → Result (Unit {0})
  unfolding check_resource
  check_ownership registry resource none user_id organization_id db =
      err (forbidden (codes "A resource id is required"))
  check_ownership registry resource (some resource_id) user_id organization_id db =
      if resource_id == 0
      then err (forbidden (codes "A resource id is required"))
      else check_resource registry resource resource_id user_id organization_id db

  -- Ownership is checked where the route names a resource (by a name that is not empty) and how to
  -- read its id, and does not opt out.
  unfoldable pub needs_ownership :
      RequirePermissionsOptions → Option (Text × (Request → Option Uuid))
  needs_ownership options = elim options.resource [
    | none ↦ none
    | some resource ↦ elim options.resource_id [
      | none ↦ none
      | some read ↦
          if is_empty resource || options.skip_ownership then none else some (resource, read)
    ]
  ]
    where
      is_empty : Text → Bool
      is_empty List.[] = true
      is_empty (List.◌∷◌ c s) = false

  unfoldable pub permit :
      RequirePermissionsOptions → Registry → Request → Uuid → Uuid → Db t → Result (Unit {0})
  unfolding check_permission check_ownership needs_ownership
  permit options registry request user_id organization_id db =
      if check_permission t user_id organization_id options.permission db
      then elim (needs_ownership options) [
        | none ↦ ok tt
        | some (resource, read) ↦
            check_ownership registry resource (read request) user_id organization_id db
      ]
      else err (forbidden (codes "Insufficient permissions"))

  unfoldable pub admit :
      RequirePermissionsOptions
      → Registry
      → Request
      → Option Uuid
      → Option Uuid
      → Db t
      → Result (Unit {0})
  unfolding permit
  admit options registry request (some user_id) (some organization_id) db =
      if user_id == 0 || organization_id == 0
      then err (forbidden (codes "An active organization is required"))
      else permit options registry request user_id organization_id db
  admit options registry request _ _ db =
      err (forbidden (codes "An active organization is required"))

  -- `PermissionGuard.canActivate`; a route without options is open.
  unfoldable pub can_activate :
      Option RequirePermissionsOptions → Registry → Request → Option Uuid → Db t → Result (Unit {0})
  unfolding admit organization_of
  can_activate none registry request active db = ok tt
  can_activate (some options) registry request active db =
      admit options registry request request.user (organization_of options request active) db
