-- ===== src/Permissions/Tests.antt =====
-- Permissions on the sample database, and the theorems applied to it.
use gym_saas_be.Prelude.{
  ◌≡◌, refl, ◌↔◌, true, false, ◌&&◌, Option, if◌then◌else◌, none, some, [], ◌∷◌, codes, ◌==◌,
}
use gym_saas_be.Store.{Uuid}
use gym_saas_be.Samples.{tables, sample, sample_runs}
use gym_saas_be.Errors.{ok}
use gym_saas_be.Entities.{Db}
use gym_saas_be.Sessions.ListSessions.{run_transaction, settle}
use gym_saas_be.Permissions.{members_remove}
use gym_saas_be.Permissions.Repository.{replace_permissions, find_permission_codes}
use gym_saas_be.Permissions.Service.{OwnershipContext, check_permission, build}
use gym_saas_be.Permissions.Ownership.{
  OwnedResource, OwnershipValidator, Registry, validate, apply_ownership_scope, selected, register,
  get,
}
use gym_saas_be.Permissions.Granted.{IsPermitted, check_permission_iff}
use gym_saas_be.Permissions.Guard.{Request, RequirePermissionsOptions, can_activate}
use gym_saas_be.Permissions.Guarded.{IsAdmitted, can_activate_iff}
use gym_saas_be.Permissions.OwnershipScope.{apply_ownership_scope-validate}
use gym_saas_be.Permissions.CodeSets.{AfterReplace, replace_permissions-assign_set}

-- Resource 3 is of organization 9 and was created by Ann.
abbrev load : Uuid → Option OwnedResource
load i = if i == 3 then some (record { organization_id = some 9; created_by = some 7 }) else none

abbrev context : OwnershipContext
context = record { user_id = 8; organization_id = 9; hierarchy_level = 1 }

abbrev notes : OwnershipValidator
notes = record { resource_type = codes "note"; validate = validate load }

registry : Registry
unfolding register
registry = register notes (record { validators = []; default_validator = none })

abbrev options : RequirePermissionsOptions
options = record {
  permission = members_remove ∷ [];
  organization_id = none;
  resource = some (codes "note");
  resource_id = some (λ r. r.param (codes "resourceId"));
  skip_ownership = false;
}

abbrev request : Uuid → Request
request user = record { user = some user; path_id = some 9; param = λ name. some 3 }

abbrev desk : Uuid
desk = 2

-- Role 2 gets one other permission.
replaced : Db tables
unfolding sample_runs replace_permissions settle
replaced = (replace_permissions tables run_transaction 2 (members_remove ∷ []) 50 sample).1

runs : Unit {0}
unfolding sample_runs check_permission can_activate registry validate build get replace_permissions
    settle replaced find_permission_codes apply_ownership_scope
runs = tt

owner_passes : can_activate tables (some options) registry (request 7) none sample ≡ ok tt
unfolding runs
owner_passes = refl

codes_replaced : find_permission_codes tables 2 replaced ≡ members_remove ∷ []
unfolding runs
codes_replaced = refl

check_permission_iff_example :
    (check_permission tables 7 9 (members_remove ∷ []) sample ≡ true)
    ↔ IsPermitted tables sample 7 9 (members_remove ∷ [])
check_permission_iff_example = check_permission_iff tables sample 7 9 (members_remove ∷ [])

can_activate_iff_example :
    (can_activate tables (some options) registry (request 7) none sample ≡ ok tt)
    ↔ IsAdmitted tables options registry (request 7) none sample
can_activate_iff_example = can_activate_iff tables options registry (request 7) none sample

apply_ownership_scope-validate_example :
    selected
      (record { organization_id = some 9; created_by = some 7 })
      (apply_ownership_scope context [])
    ≡ (true && (validate load 3 context).owned)
unfolding runs
apply_ownership_scope-validate_example =
    apply_ownership_scope-validate load 3 (record { organization_id = some 9; created_by = some 7 })
      context [] refl

-- A code that is given twice makes the call fail, and the grants stay.
code_twice :
    (replace_permissions tables run_transaction 2
      (members_remove ∷ members_remove ∷ [])
      50
      sample).1
    ≡ sample
unfolding runs
code_twice = refl

replace_permissions-assign_set_example :
    AfterReplace tables 2
      (members_remove ∷ [])
      sample
      (replace_permissions tables run_transaction 2 (members_remove ∷ []) 50 sample)
replace_permissions-assign_set_example =
    replace_permissions-assign_set tables run_transaction 2 (members_remove ∷ []) 50 sample
