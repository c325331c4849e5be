-- ===== src/Permissions/Service.antt =====
-- modules/permissions/application: the permission service and the ownership context's.
use gym_saas_be.Prelude.{ℕ, Bool, false, Option, none, some, List, Text, any, not}
use mathlib.Core.Option
use gym_saas_be.Store.{Uuid}
use gym_saas_be.Errors.{domain, permission_denied}
use gym_saas_be.Entities.{Tables, Db, Action, reads, throw_if, ◌>>=◌}
use gym_saas_be.Permissions.{MembershipRoleInfo, EffectivePermissions, has_code}
use gym_saas_be.Permissions.Repository.{find_membership_role, find_permission_codes}

pub record OwnershipContext : Type 0 where
  pub user_id : Uuid
  pub organization_id : Uuid
  pub hierarchy_level : ℕ

module _ (t : Tables) where
  -- A single permission is the list of it.
  unfoldable pub check_permission : Uuid → Uuid → List Text → Db t → Bool
  unfolding find_membership_role find_permission_codes
  check_permission user_id organization_id permissions db =
      elim (find_membership_role t user_id organization_id db) [
        | none ↦ false
        | some membership_role ↦
            let granted = find_permission_codes t membership_role.role_id db in
            any permissions (has_code granted)
      ]

  unfoldable pub require_permission : Uuid → Uuid → List Text → Action (Db t) (Unit {0})
  unfolding check_permission
  require_permission user_id organization_id permissions =
      reads (check_permission user_id organization_id permissions) >>= λ granted.
      throw_if (not granted) (domain permission_denied)

  unfoldable pub effective_of : Db t → MembershipRoleInfo → EffectivePermissions
  unfolding find_permission_codes
  effective_of db r = record {
    role = record { id = r.role_id; key = r.role_key; name = r.role_name };
    hierarchy_level = r.hierarchy_level;
    permissions = find_permission_codes t r.role_id db;
  }

  unfoldable pub get_effective_permissions : Uuid → Uuid → Db t → Option EffectivePermissions
  unfolding find_membership_role effective_of
  get_effective_permissions user_id organization_id db =
      Option.map (effective_of db) (find_membership_role t user_id organization_id db)

  unfoldable pub build : Uuid → Uuid → Db t → Option OwnershipContext
  unfolding find_membership_role
  build user_id organization_id db =
      Option.map
        (λ r. record {
          user_id = user_id;
          organization_id = organization_id;
          hierarchy_level = r.hierarchy_level;
        })
        (find_membership_role t user_id organization_id db)
