-- ===== src/Permissions/Registered.antt =====
-- modules/permissions/ownership/ownership-validator-registry.ts: the validator that the registry gives
-- for a resource.
use gym_saas_be.Prelude.{
  ◌≡◌, refl, ◌≢◌, ◌⊎◌, inl, inr, none, some, List, [], ◌∷◌, Text, text_eq, text_eq_iff, arith,
  Bool-cases, Option-cases,
}
use gym_saas_be.Permissions.Ownership.{OwnershipValidator, Registry, lookup, get}

-- The validator is the first of the list with this type.
abbrev pub IsFirst : Text → List OwnershipValidator → OwnershipValidator → Type 0
IsFirst resource [] v = ⊥
IsFirst resource (w ∷ ws) v =
    ((w.resource_type ≡ resource) × (w ≡ v))
    ⊎ ((w.resource_type ≢ resource) × IsFirst resource ws v)

-- No validator of the list has this type.
abbrev pub HasNone : Text → List OwnershipValidator → Type 0
HasNone resource [] = Unit {0}
HasNone resource (w ∷ ws) = (w.resource_type ≢ resource) × HasNone resource ws

-- The validator is the latest that was registered for the resource, or, if there is none, the default.
abbrev pub IsRegistered : Registry → Text → OwnershipValidator → Type 0
IsRegistered registry resource v =
    IsFirst resource registry.validators v
    ⊎ (HasNone resource registry.validators × (registry.default_validator ≡ some v))

lookup-IsFirst :
    (resource : Text) (ws : List OwnershipValidator) (v : OwnershipValidator)
    → lookup resource ws ≡ some v
    → IsFirst resource ws v
unfolding lookup
lookup-IsFirst resource [] v e = cc
lookup-IsFirst resource (w ∷ ws) v e =
    let iff = text_eq_iff w.resource_type resource in
    elim (Bool-cases (text_eq w.resource_type resource)) [
      | inl q ↦ inl (iff.0 q, ground arith)
      | inr q ↦
          inr ((λ same. ground (arith, iff.1 same)), lookup-IsFirst resource ws v (ground arith))
    ]

IsFirst-lookup :
    (resource : Text) (ws : List OwnershipValidator) (v : OwnershipValidator)
    → IsFirst resource ws v
    → lookup resource ws ≡ some v
unfolding lookup
IsFirst-lookup resource [] v h = absurd h
IsFirst-lookup resource (w ∷ ws) v (inl (same, e)) =
    ground (arith, (text_eq_iff w.resource_type resource).1 same)
IsFirst-lookup resource (w ∷ ws) v (inr (n, h)) =
    ground (arith, n, text_eq_iff w.resource_type resource, IsFirst-lookup resource ws v h)

lookup-HasNone :
    (resource : Text) (ws : List OwnershipValidator)
    → lookup resource ws ≡ none
    → HasNone resource ws
unfolding lookup
lookup-HasNone resource [] e = tt
lookup-HasNone resource (w ∷ ws) e =
    let iff = text_eq_iff w.resource_type resource in
    elim (Bool-cases (text_eq w.resource_type resource)) [
      | inl q ↦ absurd (ground arith)
      | inr q ↦ ((λ same. ground (arith, iff.1 same)), lookup-HasNone resource ws (ground arith))
    ]

HasNone-lookup :
    (resource : Text) (ws : List OwnershipValidator)
    → HasNone resource ws
    → lookup resource ws ≡ none
unfolding lookup
HasNone-lookup resource [] h = refl
HasNone-lookup resource (w ∷ ws) (n, h) =
    ground (arith, n, text_eq_iff w.resource_type resource, HasNone-lookup resource ws h)

pub get-IsRegistered :
    (resource : Text) (r : Registry) (v : OwnershipValidator)
    → get resource r ≡ some v
    → IsRegistered r resource v
unfolding get
get-IsRegistered resource r v e = elim (Option-cases (lookup resource r.validators)) [
  | inl n ↦ inr (lookup-HasNone resource r.validators n, ground arith)
  | inr (w, q) ↦ inl (lookup-IsFirst resource r.validators v (ground arith))
]

pub IsRegistered-get :
    (resource : Text) (r : Registry) (v : OwnershipValidator)
    → IsRegistered r resource v
    → get resource r ≡ some v
unfolding get
IsRegistered-get resource r v (inl h) = ground (arith, IsFirst-lookup resource r.validators v h)
IsRegistered-get resource r v (inr (n, e)) = ground (arith, HasNone-lookup resource r.validators n)
