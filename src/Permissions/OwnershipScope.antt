-- ===== src/Permissions/OwnershipScope.antt =====
-- The two ownership rules against each other: the check of one resource and the scope of a list.
use gym_saas_be.Prelude.{◌≡◌, ◌&&◌, Option, some, List, [], ◌∷◌, ◌++◌, arith, all-append}
use gym_saas_be.Store.{Uuid}
use gym_saas_be.Permissions.Service.{OwnershipContext}
use gym_saas_be.Permissions.Ownership.{
  OwnedResource, Condition, organization_column, owner_column, validate, judge,
  apply_ownership_scope, selected, meets,
}

-- A list query returns, of the resources that it selected before, those that the validator calls
-- owned.
pub apply_ownership_scope-validate :
    (load : Uuid → Option OwnedResource) (resource_id : Uuid) (resource : OwnedResource)
    (context : OwnershipContext) (conditions : List Condition)
    → load resource_id ≡ some resource
    → selected resource (apply_ownership_scope context conditions)
      ≡ (selected resource conditions && (validate load resource_id context).owned)
unfolding apply_ownership_scope validate judge
apply_ownership_scope-validate load i r context conditions e =
    let by_org : Condition = record {
      column = organization_column;
      value = context.organization_id;
    } in
    let by_owner : Condition = record { column = owner_column; value = context.user_id } in
    ground (
      arith,
      e,
      all-append conditions (by_org ∷ []) (meets r),
      all-append (conditions ++ (by_org ∷ [])) (by_owner ∷ []) (meets r),
    )
