-- ===== src/Seeder.antt =====
-- The catalog that the application seeds when it starts:
-- modules/permissions/infrastructure/catalog.seeder.ts.
pub mod Seeded
pub mod Grown
mod Tests
use gym_saas_be.Prelude.{
  ℕ, Bool, true, not, Option, none, some, List, [], ◌∷◌, Text, codes, text_eq, if◌then◌else◌,
  is_some, filter_by,
}
use gym_saas_be.Store.{Uuid}
use gym_saas_be.Entities.{
  Role, Permission, RolePermission, Tables, Db, Transactions, Action, pure, reads, saving, ◌>>=◌,
  ◌>>◌,
}
use gym_saas_be.Organizations.{unsaved, has_key}
use gym_saas_be.Permissions.Repository.{save_grants}
use gym_saas_be.Permissions.{
  organization_read, organization_update, organization_delete, members_read, members_update_role,
  members_remove, roles_read, users_read, settings_read, settings_update, all_permissions,
  self_level, organization_level,
}
use gym_saas_be.Roles.{save_role}

pub record RoleSeed : Type 0 where
  pub key : Text
  pub name : Text
  pub hierarchy_level : ℕ
  pub permissions : List Text

pub record PermissionDefinition : Type 0 where
  pub code : Text
  pub name : Text
  pub description : Text

abbrev definition : Text → Text → Text → PermissionDefinition
definition code name description = record { code = code; name = name; description = description }

abbrev pub permission_definitions : List PermissionDefinition
permission_definitions =
    definition organization_read (codes "Read organization") (codes "Read organization details")
    ∷ definition organization_update (codes "Update organization")
        (codes "Update organization details")
    ∷ definition organization_delete (codes "Delete organization") (codes "Delete an organization")
    ∷ definition members_read (codes "Read members") (codes "Read organization members")
    ∷ definition members_update_role (codes "Update member roles") (codes "Change member roles")
    ∷ definition members_remove (codes "Remove members") (codes "Remove organization members")
    ∷ definition roles_read (codes "Read roles") (codes "Read the role catalog")
    ∷ definition users_read (codes "Read users") (codes "Read user profiles")
    ∷ definition settings_read (codes "Read settings") (codes "Read organization settings")
    ∷ definition settings_update (codes "Update settings") (codes "Update organization settings")
    ∷ []

abbrev pub role_seeds : List RoleSeed
role_seeds =
    record {
      key = codes "owner";
      name = codes "Dueño";
      hierarchy_level = organization_level;
      permissions = all_permissions;
    }
    ∷ record {
      key = codes "admin";
      name = codes "Administrador";
      hierarchy_level = organization_level;
      permissions = filter_by (λ code. not (text_eq code organization_delete)) all_permissions;
    }
    ∷ record {
      key = codes "receptionist";
      name = codes "Recepcionista";
      hierarchy_level = organization_level;
      permissions = organization_read ∷ members_read ∷ settings_read ∷ roles_read ∷ users_read ∷ [];
    }
    ∷ record {
      key = codes "instructor";
      name = codes "Instructor";
      hierarchy_level = self_level;
      permissions = organization_read ∷ members_read ∷ settings_read ∷ [];
    }
    ∷ []

abbrev pub new_permission : PermissionDefinition → Permission
new_permission p = record {
  base = unsaved;
  cols = record { code = p.code; name = p.name; description = p.description; is_active = true };
}

abbrev pub seeded_role : RoleSeed → Role
seeded_role seed = record {
  base = unsaved;
  cols = record {
    key = seed.key;
    name = seed.name;
    description = none;
    hierarchy_level = seed.hierarchy_level;
  };
}

unfoldable pub has_code_of : Text → Permission → Bool
has_code_of code p = text_eq p.cols.code code

module _ (t : Tables) where
  unfoldable pub find_permission : Text → Db t → Option Permission
  unfolding has_code_of
  find_permission code db = t.permissions.find_one (has_code_of code) db.permissions

  unfoldable pub find_role : Text → Db t → Option Role
  unfolding has_key
  find_role key db = t.roles.find_one (has_key key) db.roles

  unfoldable pub save_permission : PermissionDefinition → Action (Db t) (Unit {0})
  save_permission p =
      saving t.permissions (λ db. db.permissions) (λ ps db. record db { permissions = ps })
        (new_permission p)
      >> pure tt

  unfoldable pub create_role_with_grants : RoleSeed → Action (Db t) (Unit {0})
  unfolding save_role save_grants
  create_role_with_grants seed =
      save_role t (seeded_role seed) >>= λ role. save_grants t role.id seed.permissions

  unfoldable pub ensure_permissions : List PermissionDefinition → Action (Db t) (Unit {0})
  unfolding find_permission save_permission
  ensure_permissions [] = pure tt
  ensure_permissions (p ∷ rest) =
      let others = ensure_permissions rest in
      reads (find_permission p.code) >>= λ existing.
      (if is_some existing then pure tt else save_permission p) >> others

  unfoldable pub ensure_role : RoleSeed → Action (Db t) (Unit {0})
  unfolding find_role create_role_with_grants
  ensure_role seed = reads (find_role seed.key) >>= λ existing.
      if is_some existing then pure tt else create_role_with_grants seed

  unfoldable pub ensure_roles : List RoleSeed → Action (Db t) (Unit {0})
  unfolding ensure_role
  ensure_roles [] = pure tt
  ensure_roles (seed ∷ rest) = let others = ensure_roles rest in ensure_role seed >> others

  -- `CatalogSeeder.onApplicationBootstrap`.
  unfoldable pub seed_catalog : Transactions (Db t) → Action (Db t) (Unit {0})
  unfolding ensure_permissions ensure_roles
  seed_catalog d =
      d.transaction (Unit {0})
        (ensure_permissions permission_definitions >> ensure_roles role_seeds)
