-- ===== src/Permissions/Asked.antt =====
-- common/guards/permission.guard.ts: what a route's options ask for, apart from how the guard reads
-- them.
use gym_saas_be.Prelude.{
  ◌≡◌, refl, ◌≢◌, inl, inr, false, Option, none, some, [], ◌∷◌, Text, arith, Option-cases,
  Bool-cases, ap, ◌∙◌,
}
use gym_saas_be.Store.{Uuid}
use gym_saas_be.Entities.{Tables}
use gym_saas_be.Permissions.Guard.{
  Request, RequirePermissionsOptions, applied, organization_of, needs_ownership,
}

-- The organization that a request is about: the one that the route's own reader finds in it, else
-- the one of its path, else the active one.
pub data IsOrganization (options : RequirePermissionsOptions) (request : Request)
    (active : Option Uuid) (o : Uuid) : Type 0 where
  by_reader :
      (read : Request → Option Uuid)
      → options.organization_id ≡ some read
      → read request ≡ some o
      → IsOrganization options request active o
  by_path :
      ((read : Request → Option Uuid) → options.organization_id ≡ some read → read request ≡ none)
      → request.path_id ≡ some o
      → IsOrganization options request active o
  by_active :
      ((read : Request → Option Uuid) → options.organization_id ≡ some read → read request ≡ none)
      → request.path_id ≡ none
      → active ≡ some o
      → IsOrganization options request active o

unread :
    (reader : Option (Request → Option Uuid)) (request : Request)
    → applied reader request ≡ none
    → (read : Request → Option Uuid) → reader ≡ some read
    → read request ≡ none
unread none request n read e = cc
unread (some f) request n read e = ground arith

unread-applied :
    (reader : Option (Request → Option Uuid)) (request : Request)
    → ((read : Request → Option Uuid) → reader ≡ some read → read request ≡ none)
    → applied reader request ≡ none
unread-applied none request h = refl
unread-applied (some f) request h = h f refl

read_by :
    (reader : Option (Request → Option Uuid)) (request : Request) (o : Uuid)
    → applied reader request ≡ some o
    → (read : Request → Option Uuid) × (reader ≡ some read) × (read request ≡ some o)
read_by none request o e = cc
read_by (some f) request o e = (f, refl, e)

pub organization_of-IsOrganization :
    (options : RequirePermissionsOptions) (request : Request) (active : Option Uuid) (o : Uuid)
    → organization_of options request active ≡ some o
    → IsOrganization options request active o
unfolding organization_of
organization_of-IsOrganization options request active o e =
    elim (Option-cases (applied options.organization_id request)) [
      | inr (i, q) ↦
          let (read, is_reader, gives) = read_by options.organization_id request o (ground arith) in
          by_reader read is_reader gives
      | inl n ↦ elim (Option-cases request.path_id) [
        | inr (i, q) ↦ by_path (unread options.organization_id request n) (ground arith)
        | inl m ↦ by_active (unread options.organization_id request n) m (ground arith)
      ]
    ]

pub IsOrganization-organization_of :
    (options : RequirePermissionsOptions) (request : Request) (active : Option Uuid) (o : Uuid)
    → IsOrganization options request active o
    → organization_of options request active ≡ some o
unfolding organization_of
IsOrganization-organization_of options request active o (by_reader read e g) = ground arith
IsOrganization-organization_of options request active o (by_path n e) =
    ground (arith, unread-applied options.organization_id request n)
IsOrganization-organization_of options request active o (by_active n e a) =
    ground (arith, unread-applied options.organization_id request n)

-- The route names a resource, by a name that is not empty, says how to read its id, and does not opt
-- out of the check of ownership.
pub record AsksOwnership (options : RequirePermissionsOptions) (resource : Text)
    (read : Request → Option Uuid) : Type 0 where
  pub resource_named : options.resource ≡ some resource
  pub resource_filled : resource ≢ []
  pub id_reader : options.resource_id ≡ some read
  pub not_skipped : options.skip_ownership ≡ false

module _ (t : Tables) where
  pub needs_ownership-AsksOwnership :
      (options : RequirePermissionsOptions) (resource : Text) (read : Request → Option Uuid)
      → needs_ownership t options ≡ some (resource, read)
      → AsksOwnership options resource read
  unfolding needs_ownership
  needs_ownership-AsksOwnership options resource read e = elim (Option-cases options.resource) [
    | inl n ↦ absurd (ground arith)
    | inr ([], q) ↦ elim (Option-cases options.resource_id) [
      | inl m ↦ absurd (ground arith)
      | inr (f, p) ↦ absurd (ground arith)
    ]
    | inr (c ∷ s, q) ↦ elim (Option-cases options.resource_id) [
      | inl m ↦ absurd (ground arith)
      | inr (f, p) ↦ elim (Bool-cases options.skip_ownership) [
        | inl skip ↦ absurd (ground arith)
        | inr asked ↦
            let same : (c ∷ s ≡ resource) × (f ≡ read) = ground arith in
            record {
              resource_named = q ∙ ap (λ (x : Text). some x) (same.0);
              resource_filled = λ z. ground (arith, same.0, z);
              id_reader = p ∙ ap (λ (x : Request → Option Uuid). some x) (same.1);
              not_skipped = asked;
            }
      ]
    ]
  ]

  pub AsksOwnership-needs_ownership :
      (options : RequirePermissionsOptions) (resource : Text) (read : Request → Option Uuid)
      → AsksOwnership options resource read
      → needs_ownership t options ≡ some (resource, read)
  unfolding needs_ownership
  AsksOwnership-needs_ownership options [] read h = absurd (h.resource_filled refl)
  AsksOwnership-needs_ownership options (c ∷ s) read h =
      rw (h.resource_named, h.id_reader, h.not_skipped) refl
