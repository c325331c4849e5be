-- ===== src/Permissions/Repository.antt =====
-- The repositories of modules/permissions/infrastructure.
use gym_saas_be.Prelude.{Bool, Option, none, some, List, [], ◌∷◌, map, Text, ltb}
use mathlib.Core.Option
use gym_saas_be.Store.{Uuid, Time}
use gym_saas_be.Entities.{
  Transactions, Tables, Db, Role, Permission, RolePermission, Action, pure, saving, ◌>>◌,
}
use gym_saas_be.Permissions.{
  RoleSummary, MembershipRoleInfo, is_membership_of, is_role, is_grant_of, is_active_permission,
  is_active_code,
}

unfoldable pub role_info : Role → MembershipRoleInfo
role_info role = record {
  role_id = role.id;
  role_key = role.cols.key;
  role_name = role.cols.name;
  hierarchy_level = role.cols.hierarchy_level;
}

unfoldable pub role_summary : Role → RoleSummary
role_summary role = record { id = role.id; key = role.cols.key; name = role.cols.name }

-- `repo.create({ roleId, permissionCode })`; the hooks fill in the rest when it is saved.
abbrev pub new_grant : Uuid → Text → RolePermission
new_grant role_id code = record {
  base = record {
    id = 0;
    created_at = 0;
    updated_at = none;
    deleted_at = none;
    created_by = none;
    updated_by = none;
  };
  cols = record { role_id = role_id; permission_code = code };
}

module _ (t : Tables) where
  unfoldable pub find_membership_role : Uuid → Uuid → Db t → Option MembershipRoleInfo
  unfolding role_info is_membership_of is_role
  find_membership_role user_id organization_id db =
      elim (t.memberships.find_one (is_membership_of user_id organization_id) db.memberships) [
        | none ↦ none
        | some m ↦ Option.map role_info (t.roles.find_one (is_role m.cols.role_id) db.roles)
      ]

  unfoldable pub find_permission_codes : Uuid → Db t → List Text
  unfolding is_grant_of
  find_permission_codes role_id db =
      map (λ g. g.cols.permission_code)
        (t.role_permissions.find (is_grant_of role_id) db.role_permissions)

  unfoldable pub find_role_summary : Uuid → Db t → Option RoleSummary
  unfolding role_summary is_role
  find_role_summary role_id db =
      Option.map role_summary (t.roles.find_one (is_role role_id) db.roles)

  -- The order is that of the database; the source asks for the codes in ascending order.
  unfoldable pub list_active : Db t → List Permission
  unfolding is_active_permission
  list_active db = t.permissions.find is_active_permission db.permissions

  unfoldable pub exists_active : Text → Db t → Bool
  unfolding is_active_code
  exists_active code db = ltb 0 (t.permissions.count (is_active_code code) db.permissions)

  -- `repo.save(rows)` writes the rows one after the other.
  unfoldable pub save_grants : Uuid → List Text → Action (Db t) (Unit {0})
  save_grants role_id [] = pure tt
  save_grants role_id (code ∷ rest) =
      let others = save_grants role_id rest in
      saving t.role_permissions (λ db. db.role_permissions)
        (λ grants db. record db { role_permissions = grants }) (new_grant role_id code)
      >> others

  abbrev pub without_grants : Uuid → Time → Db t → Db t
  without_grants role_id now db = record db {
    role_permissions = t.role_permissions.soft_delete (is_grant_of role_id) now db.role_permissions;
  }

  unfoldable pub replace_permissions :
      Transactions (Db t) → Uuid → List Text → Time → Action (Db t) (Unit {0})
  unfolding save_grants is_grant_of
  replace_permissions d role_id permission_codes now =
      d.transaction (Unit {0})
        λ db. save_grants role_id permission_codes (without_grants role_id now db)
