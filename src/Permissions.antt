-- ===== src/Permissions.antt =====
-- Permissions: modules/permissions (the services, the repositories over TypeORM, the ownership
-- rules), the levels of common/enums/hierarchy-level.enum.ts, and the guards of common/guards.
pub mod Repository
pub mod Service
pub mod Ownership
mod Tests
pub mod Granted
pub mod Guard
pub mod Asked
pub mod Registered
pub mod Guarded
pub mod OwnershipScope
pub mod Replace
pub mod CodeSets
use gym_saas_be.Prelude.{ℕ, Bool, ◌&&◌, List, [], ◌∷◌, Text, codes, text_eq, leb, ◌==◌, any}
use gym_saas_be.Store.{Uuid}
use gym_saas_be.Entities.{Membership, Role, RolePermission, Permission}

pub record RoleSummary : Type 0 where
  pub id : Uuid
  pub key : Text
  pub name : Text

pub record MembershipRoleInfo : Type 0 where
  pub role_id : Uuid
  pub role_key : Text
  pub role_name : Text
  pub hierarchy_level : ℕ

pub record EffectivePermissions : Type 0 where
  pub role : RoleSummary
  pub hierarchy_level : ℕ
  pub permissions : List Text

-- The universe of permission codes.
abbrev pub organization_read : Text
organization_read = codes "organization:read"

abbrev pub organization_update : Text
organization_update = codes "organization:update"

abbrev pub organization_delete : Text
organization_delete = codes "organization:delete"

abbrev pub members_read : Text
members_read = codes "members:read"

abbrev pub members_update_role : Text
members_update_role = codes "members:update_role"

abbrev pub members_remove : Text
members_remove = codes "members:remove"

abbrev pub roles_read : Text
roles_read = codes "roles:read"

abbrev pub users_read : Text
users_read = codes "users:read"

abbrev pub settings_read : Text
settings_read = codes "settings:read"

abbrev pub settings_update : Text
settings_update = codes "settings:update"

abbrev pub all_permissions : List Text
all_permissions =
    organization_read ∷ organization_update ∷ organization_delete ∷ members_read
    ∷ members_update_role ∷ members_remove ∷ roles_read ∷ users_read ∷ settings_read
    ∷ settings_update ∷ []

-- The levels of a role's reach over data.
abbrev pub self_level : ℕ
self_level = 1

abbrev pub organization_level : ℕ
organization_level = 5

abbrev pub global_level : ℕ
global_level = 10

unfoldable pub has_organization_access : ℕ → Bool
has_organization_access level = leb organization_level level

unfoldable pub has_global_access : ℕ → Bool
has_global_access level = leb global_level level

-- The `where` clauses of the repositories, here and in the other modules.
unfoldable pub is_membership_of : Uuid → Uuid → Membership → Bool
is_membership_of user_id organization_id m =
    m.cols.user_id == user_id && m.cols.organization_id == organization_id

unfoldable pub is_role : Uuid → Role → Bool
is_role role_id r = r.id == role_id

unfoldable pub is_grant_of : Uuid → RolePermission → Bool
is_grant_of role_id g = g.cols.role_id == role_id

unfoldable pub is_active_permission : Permission → Bool
is_active_permission p = p.cols.is_active

unfoldable pub is_active_code : Text → Permission → Bool
is_active_code code p = text_eq p.cols.code code && p.cols.is_active

-- `granted.has(code)`.
abbrev pub has_code : List Text → Text → Bool
has_code granted code = any granted (λ c. text_eq c code)
