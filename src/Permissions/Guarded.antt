-- ===== src/Permissions/Guarded.antt =====
-- Whom the permission guard lets through.
use gym_saas_be.Prelude.{
  ◌≡◌, refl, ◌≢◌, ◌↔◌, inl, inr, true, Option, none, some, Text, arith, Option-cases,
}
use gym_saas_be.Store.{Uuid}
use gym_saas_be.Errors.{ok}
use gym_saas_be.Entities.{Tables, Db, Role}
use gym_saas_be.Permissions.Service.{OwnershipContext, build}
use gym_saas_be.Permissions.Ownership.{OwnershipResult, OwnershipValidator, Registry, get}
use gym_saas_be.Permissions.Granted.{
  IsPermitted, check_permission_iff, HasRole, membership_role_found, membership_role_sound,
}
use gym_saas_be.Permissions.Registered.{IsRegistered, get-IsRegistered, IsRegistered-get}
use gym_saas_be.Permissions.Asked.{
  IsOrganization, AsksOwnership, organization_of-IsOrganization, IsOrganization-organization_of,
  needs_ownership-AsksOwnership, AsksOwnership-needs_ownership,
}
use gym_saas_be.Permissions.Guard.{
  Request, RequirePermissionsOptions, organization_of, answer, validate_with, check_resource,
  check_ownership, needs_ownership, permit, admit, can_activate,
}
use gym_saas_be.Permissions.Repository.{find_membership_role}

module _ (t : Tables) where
  -- Whom a validator judges: a user in an organization, at the level of their role there.
  abbrev pub as_member : Uuid → Uuid → Role → OwnershipContext
  as_member user_id organization_id role = record {
    user_id = user_id;
    organization_id = organization_id;
    hierarchy_level = role.cols.hierarchy_level;
  }

  built-HasRole :
      (u o : Uuid) (db : Db t) (c : OwnershipContext)
      → build t u o db ≡ some c
      → (role : Role) × HasRole t db u o role × (as_member u o role ≡ c)
  unfolding build
  built-HasRole u o db c e = elim (Option-cases (find_membership_role t u o db)) [
    | inl n ↦ absurd (ground arith)
    | inr (info, q) ↦
        let (role, has, same) = membership_role_sound t db u o info q in (role, has, ground arith)
  ]

  HasRole-built :
      (u o : Uuid) (db : Db t) (role : Role)
      → HasRole t db u o role
      → build t u o db ≡ some (as_member u o role)
  unfolding build
  HasRole-built u o db role h = rw (membership_role_found t db u o role h) refl

  -- The resource of the request passes its validator, for the user's role in the organization.
  pub record IsOwned (registry : Registry) (db : Db t) (resource : Text) (id : Option Uuid)
      (user_id organization_id : Uuid) : Type 0 where
    pub resource_id : Uuid
    pub read : id ≡ some resource_id
    pub not_empty : resource_id ≢ 0
    pub validator : OwnershipValidator
    pub registered : IsRegistered registry resource validator
    pub role : Role
    pub has_role : HasRole t db user_id organization_id role
    pub found :
        (validator.validate resource_id (as_member user_id organization_id role)).found ≡ true
    pub owned :
        (validator.validate resource_id (as_member user_id organization_id role)).owned ≡ true

  answer_iff : (r : OwnershipResult) → (answer r ≡ ok tt) ↔ ((r.found ≡ true) × (r.owned ≡ true))
  unfolding answer
  answer_iff r = ground arith

  check_resource-IsOwned :
      (registry : Registry) (db : Db t) (resource : Text) (id u o : Uuid)
      → id ≢ 0
      → check_resource t registry resource id u o db ≡ ok tt
      → IsOwned registry db resource (some id) u o
  unfolding check_resource validate_with
  check_resource-IsOwned registry db resource id u o n e =
      elim (Option-cases (get resource registry)) [
        | inl m ↦ absurd (ground arith)
        | inr (v, q) ↦ elim (Option-cases (build t u o db)) [
          | inl m ↦ absurd (ground arith)
          | inr (c, b) ↦
              let (role, has, same) = built-HasRole u o db c b in
              let both = (answer_iff (v.validate id c)).0 (ground arith) in
              record {
                resource_id = id;
                read = refl;
                not_empty = n;
                validator = v;
                registered = get-IsRegistered resource registry v q;
                role = role;
                has_role = has;
                found = rw same both.0;
                owned = rw same both.1;
              }
        ]
      ]

  check_ownership-IsOwned :
      (registry : Registry) (db : Db t) (resource : Text) (id : Option Uuid) (u o : Uuid)
      → check_ownership t registry resource id u o db ≡ ok tt
      → IsOwned registry db resource id u o
  unfolding check_ownership
  check_ownership-IsOwned registry db resource none u o e = cc
  check_ownership-IsOwned registry db resource (some id) u o e =
      check_resource-IsOwned registry db resource id u o (ground arith) (ground arith)

  IsOwned-check_ownership :
      (registry : Registry) (db : Db t) (resource : Text) (id : Option Uuid) (u o : Uuid)
      → IsOwned registry db resource id u o
      → check_ownership t registry resource id u o db ≡ ok tt
  unfolding check_ownership check_resource validate_with answer
  IsOwned-check_ownership registry db resource id u o h = ground (
    arith,
    h.read,
    h.not_empty,
    IsRegistered-get resource registry h.validator h.registered,
    HasRole-built u o db h.role h.has_role,
    h.found,
    h.owned,
  )

  -- What the guard asks of a request.
  pub record IsAdmitted (options : RequirePermissionsOptions) (registry : Registry)
      (request : Request) (active : Option Uuid) (db : Db t) : Type 0 where
    pub user_id : Uuid
    pub organization_id : Uuid
    pub is_user : request.user ≡ some user_id
    pub user_filled : user_id ≢ 0
    pub is_organization : IsOrganization options request active organization_id
    pub organization_filled : organization_id ≢ 0
    pub permitted : IsPermitted t db user_id organization_id options.permission
    pub owns :
        (resource : Text) (read : Request → Option Uuid)
        → AsksOwnership options resource read
        → IsOwned registry db resource (read request) user_id organization_id

  permit-owns :
      (options : RequirePermissionsOptions) (registry : Registry) (request : Request) (db : Db t)
      (u o : Uuid)
      → permit t options registry request u o db ≡ ok tt
      → IsPermitted t db u o options.permission
        × ((resource : Text) (read : Request → Option Uuid)
            → AsksOwnership options resource read
            → IsOwned registry db resource (read request) u o)
  unfolding permit
  permit-owns options registry request db u o e = (
    (check_permission_iff t db u o options.permission).0 (ground arith),
    λ resource read asks.
        let q = AsksOwnership-needs_ownership t options resource read asks in
        check_ownership-IsOwned registry db resource (read request) u o (ground arith),
  )

  admit-IsAdmitted :
      (options : RequirePermissionsOptions) (registry : Registry) (request : Request)
      (active user organization : Option Uuid) (db : Db t)
      → request.user ≡ user
      → organization_of options request active ≡ organization
      → admit t options registry request user organization db ≡ ok tt
      → IsAdmitted options registry request active db
  unfolding admit
  admit-IsAdmitted options registry request active (some u) (some o) db qu qo e =
      let (permitted, owns) = permit-owns options registry request db u o (ground arith) in
      record {
        user_id = u;
        organization_id = o;
        is_user = qu;
        user_filled = ground arith;
        is_organization = organization_of-IsOrganization options request active o qo;
        organization_filled = ground arith;
        permitted = permitted;
        owns = owns;
      }
  admit-IsAdmitted options registry request active none organization db qu qo e = cc
  admit-IsAdmitted options registry request active (some u) none db qu qo e = cc

  IsAdmitted-permit :
      (options : RequirePermissionsOptions) (registry : Registry) (request : Request)
      (active : Option Uuid) (db : Db t) (h : IsAdmitted options registry request active db)
      → permit t options registry request h.user_id h.organization_id db ≡ ok tt
  unfolding permit
  IsAdmitted-permit options registry request active db h =
      let granted =
        (check_permission_iff t db h.user_id h.organization_id options.permission).1 h.permitted in
      elim (Option-cases (needs_ownership t options)) [
        | inl n ↦ ground arith
        | inr ((resource, read), q) ↦ ground (
          arith,
          granted,
          q,
          IsOwned-check_ownership registry db resource (read request) h.user_id h.organization_id
              (h.owns resource read (needs_ownership-AsksOwnership t options resource read q)),
        )
      ]

  -- The guard of a route that declares permissions lets a request through exactly when it has a
  -- user and an organization (the one that the route's reader finds, else that of the path, else the
  -- active one), the user is permitted there, and, where the route names a resource and the reader of
  -- its id and does not skip the check, the resource passes the validator registered for it, else
  -- the default one, for the live role that the user has there.
  pub can_activate_iff :
      (options : RequirePermissionsOptions) (registry : Registry) (request : Request)
      (active : Option Uuid) (db : Db t)
      → (can_activate t (some options) registry request active db ≡ ok tt)
        ↔ IsAdmitted options registry request active db
  unfolding can_activate admit
  can_activate_iff options registry request active db = (
    admit-IsAdmitted options registry request active _ _ db refl refl,
    λ h. ground (
      arith,
      h.is_user,
      IsOrganization-organization_of options request active h.organization_id h.is_organization,
      h.user_filled,
      h.organization_filled,
      IsAdmitted-permit options registry request active db h,
    ),
  )
