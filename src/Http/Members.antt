-- ===== src/Http/Members.antt =====
-- modules/memberships/interfaces/members.controller.ts, and the controllers of modules/roles that
-- serve the members of an organization: roles.controller.ts and my-permissions.controller.ts.
use gym_saas_be.Prelude.{Bool, ℕ, none, some, List, map, Text, codes}
use gym_saas_be.Store.{Uuid, Time}
use gym_saas_be.Errors.{forbidden}
use gym_saas_be.Entities.{Action, pure, reads, or_throw, ◌>>=◌}
use gym_saas_be.Permissions.{
  RoleSummary, EffectivePermissions, members_read, members_update_role, members_remove, roles_read,
}
use gym_saas_be.Permissions.Service.{get_effective_permissions}
use gym_saas_be.Memberships.{OrganizationMember}
use gym_saas_be.Memberships.UseCases.{list_members, change_member_role, remove_member}
use gym_saas_be.Roles.{list_roles}
use gym_saas_be.Auth.{AuthenticatedPrincipal, on_db}
use gym_saas_be.Http.Views.{RoleView, to_role_view}
use gym_saas_be.Http.Requests.{
  Backend, HttpRequest, State, require_permissions, business_guards, guarded,
}

pub record MyPermissions : Type 0 where
  pub organization_id : Uuid
  pub role : RoleSummary
  pub hierarchy_level : ℕ
  pub permissions : List Text

module _ (b : Backend) where
  -- Behind the guards of routes below `organizations/:id`, with the method's permission.
  abbrev pub behind :
      {A : Type 0} (code : Text)
      → Time
      → HttpRequest
      → Uuid
      → (AuthenticatedPrincipal → Action (State b) A)
      → Action (State b) A
  unfolding business_guards require_permissions
  behind code now request organization_id =
      guarded b
        (business_guards b (some (require_permissions code)) now request (some organization_id))

  unfoldable pub list : Time → HttpRequest → Uuid → Action (State b) (List OrganizationMember)
  unfolding behind list_members
  list now request organization_id =
      behind members_read now request organization_id
        λ p. on_db b.tables b.sessions (list_members b.tables p.user.id organization_id)

  unfoldable pub change_role :
      Time
      → HttpRequest
      → (organization_id target_user_id : Uuid) → (target_is_canonical : Bool) → (role_id : Uuid)
      → Action (State b) OrganizationMember
  unfolding behind change_member_role
  change_role now request organization_id target_user_id target_is_canonical role_id =
      behind members_update_role now request organization_id λ p. on_db b.tables b.sessions (
        change_member_role b.tables (record {
          target_is_canonical = target_is_canonical;
          caller_user_id = p.user.id;
          organization_id = organization_id;
          target_user_id = target_user_id;
          role_id = role_id;
        }))

  unfoldable pub remove :
      Time → HttpRequest → (organization_id target_user_id : Uuid) → Action (State b) (Unit {0})
  unfolding behind remove_member
  remove now request organization_id target_user_id =
      behind members_remove now request organization_id λ p. on_db b.tables b.sessions (
        remove_member b.tables
          (record {
            caller_user_id = p.user.id;
            organization_id = organization_id;
            target_user_id = target_user_id;
          })
          now)

  -- `RolesController.list`.
  unfoldable pub list_of_roles : Time → HttpRequest → Uuid → Action (State b) (List RoleView)
  unfolding behind list_roles to_role_view
  list_of_roles now request organization_id = behind roles_read now request organization_id λ p.
      on_db b.tables b.sessions (list_roles b.tables p.user.id organization_id) >>= λ roles.
      pure (map to_role_view roles)

  abbrev pub shown : Uuid → EffectivePermissions → MyPermissions
  shown organization_id effective = record {
    organization_id = organization_id;
    role = effective.role;
    hierarchy_level = effective.hierarchy_level;
    permissions = effective.permissions;
  }

  -- Any member may ask for the permissions of their own.
  unfoldable pub my_permissions : Time → HttpRequest → Uuid → Action (State b) MyPermissions
  unfolding business_guards get_effective_permissions
  my_permissions now request organization_id =
      guarded b (business_guards b none now request (some organization_id)) λ p.
        reads (λ w. get_effective_permissions b.tables p.user.id organization_id w.db) >>= λ found.
        or_throw found (forbidden (codes "Active organization membership was not found"))
        >>= λ effective. pure (shown organization_id effective)
