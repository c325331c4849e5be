-- ===== src/Permissions/Ownership.antt =====
-- modules/permissions/ownership: the default validator of one resource, the scope of a list query,
-- and the registry of validators.
use gym_saas_be.Prelude.{
  Bool, true, false, ◌&&◌, Option, none, some, List, [], ◌∷◌, ◌++◌, Text, text_eq, ◌==◌,
  if◌then◌else◌, all, or_else,
}
use gym_saas_be.Store.{Uuid}
use gym_saas_be.Permissions.{has_organization_access, has_global_access}
use gym_saas_be.Permissions.Service.{OwnershipContext}

pub record OwnedResource : Type 0 where
  pub organization_id : Option Uuid
  pub created_by : Option Uuid

pub record OwnershipResult : Type 0 where
  pub found : Bool
  pub owned : Bool

-- `===` of a column that may be missing and an id.
abbrev pub is_id : Option Uuid → Uuid → Bool
is_id none i = false
is_id (some j) i = j == i

unfoldable pub judge : OwnedResource → OwnershipContext → OwnershipResult
unfolding has_organization_access has_global_access
judge resource context =
    let same_org = is_id resource.organization_id context.organization_id in
    if has_global_access context.hierarchy_level
    then record { found = true; owned = true }
    else if has_organization_access context.hierarchy_level
    then record { found = true; owned = same_org }
    else record { found = true; owned = same_org && is_id resource.created_by context.user_id }

-- `DefaultOwnershipValidator.validate`, with its loader.
unfoldable pub validate : (Uuid → Option OwnedResource) → Uuid → OwnershipContext → OwnershipResult
unfolding judge
validate load resource_id context = elim (load resource_id) [
  | none ↦ record { found = false; owned = false }
  | some resource ↦ judge resource context
]

-- What `andWhere` receives: a column compared with an id.
pub data Column : Type 0 where
  organization_column owner_column : Column

pub record Condition : Type 0 where
  pub column : Column
  pub value : Uuid

-- The conditions that `applyOwnershipScope` adds to a query.
unfoldable pub apply_ownership_scope : OwnershipContext → List Condition → List Condition
unfolding has_organization_access has_global_access
apply_ownership_scope context conditions =
    let by_org : Condition = record {
      column = organization_column;
      value = context.organization_id;
    } in
    let by_owner : Condition = record { column = owner_column; value = context.user_id } in
    if has_global_access context.hierarchy_level
    then conditions
    else if has_organization_access context.hierarchy_level
    then conditions ++ (by_org ∷ [])
    else (conditions ++ (by_org ∷ [])) ++ (by_owner ∷ [])

-- How the database reads a condition: a NULL column never matches.
abbrev pub meets : OwnedResource → Condition → Bool
meets resource c = elim c.column [
  | organization_column ↦ is_id resource.organization_id c.value
  | owner_column ↦ is_id resource.created_by c.value
]

abbrev pub selected : OwnedResource → List Condition → Bool
selected resource conditions = all conditions (meets resource)

pub record OwnershipValidator : Type 0 where
  pub resource_type : Text
  pub validate : Uuid → OwnershipContext → OwnershipResult

pub record Registry : Type 0 where
  pub validators : List OwnershipValidator
  pub default_validator : Option OwnershipValidator

-- A later registration under a type hides an earlier one.
unfoldable pub register : OwnershipValidator → Registry → Registry
register v r = record r { validators = v ∷ r.validators }

unfoldable pub set_default : OwnershipValidator → Registry → Registry
set_default v r = record r { default_validator = some v }

unfoldable pub lookup : Text → List OwnershipValidator → Option OwnershipValidator
lookup resource_type [] = none
lookup resource_type (v ∷ vs) =
    if text_eq v.resource_type resource_type then some v else lookup resource_type vs

unfoldable pub get : Text → Registry → Option OwnershipValidator
unfolding lookup
get resource_type r = or_else (lookup resource_type r.validators) r.default_validator
