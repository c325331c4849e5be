-- ===== src/Samples.antt =====
-- A small database in list tables, for the tests and the examples: an organization (9) with an
-- owner (Ann, 7) and a receptionist (Bob, 8), the roles of both, and their grants.
use gym_saas_be.Prelude.{refl, true, false, none, [], ◌∷◌, Text, codes, text_eq}
use gym_saas_be.Store.{Uuid, BaseEntity}
use gym_saas_be.Store.ListTable.{list_table, list_table_runs}
use gym_saas_be.Entities.{
  Tables, Db, User, Organization, Membership, Role, Permission, RolePermission, local, same_email,
  same_slug, same_user_org, same_key, same_code, same_role_code,
}

abbrev pub tables : Tables
tables = record {
  users = list_table same_email false;
  organizations = list_table same_slug true;
  memberships = list_table same_user_org true;
  roles = list_table same_key true;
  permissions = list_table same_code false;
  role_permissions = list_table same_role_code true;
}

abbrev pub row : Uuid → BaseEntity
row id = record {
  id = id;
  created_at = 1;
  updated_at = none;
  deleted_at = none;
  created_by = none;
  updated_by = none;
}

abbrev pub user : Uuid → Text → User
user id name = record {
  base = row id;
  cols = record {
    email = name;
    name = name;
    password_hash = none;
    google_id = none;
    provider = local;
    avatar_url = none;
    is_platform_admin = false;
  };
}

abbrev pub membership : (id user_id organization_id role_id : Uuid) → Membership
membership id user_id organization_id role_id = record {
  base = row id;
  cols = record { user_id = user_id; organization_id = organization_id; role_id = role_id };
}

abbrev pub role : Uuid → Text → Role
role id key = record {
  base = row id;
  cols = record { key = key; name = key; description = none; hierarchy_level = 5 };
}

abbrev pub grant : (id role_id : Uuid) → Text → RolePermission
grant id role_id code = record {
  base = row id;
  cols = record { role_id = role_id; permission_code = code };
}

abbrev pub permission : Uuid → Text → Permission
permission id code = record {
  base = row id;
  cols = record { code = code; name = code; description = code; is_active = true };
}

abbrev pub organization : Uuid → Text → Organization
organization id slug = record {
  base = row id;
  cols = record {
    name = slug;
    slug = slug;
    trial_ends_at = none;
    primary_color = none;
    secondary_color = none;
    font_family = none;
    logo_url = none;
    banner_url = none;
  };
}

unfoldable pub sample : Db tables
unfolding list_table_runs text_eq
sample = record {
  users = (
    user 7 (codes "ann") ∷ user 8 (codes "bob") ∷ [],
    (refl, refl, (refl, refl, tt, refl), refl),
  );
  organizations = (organization 9 (codes "gym") ∷ [], (refl, refl, tt, refl));
  memberships =
      (membership 1 7 9 1 ∷ membership 2 8 9 2 ∷ [], (refl, refl, (refl, refl, tt, refl), refl));
  roles = (
    role 1 (codes "owner") ∷ role 2 (codes "desk") ∷ role 3 (codes "admin") ∷ [],
    (refl, refl, (refl, refl, (refl, refl, tt, refl), refl), refl),
  );
  permissions = (permission 1 (codes "members:read") ∷ [], (refl, refl, tt, refl));
  role_permissions = (
    grant 1 1 (codes "members:update_role")
        ∷ grant 2 1 (codes "members:remove")
        ∷ grant 3 2 (codes "members:read")
        ∷ grant 4 1 (codes "organization:delete")
        ∷ grant 5 1 (codes "organization:update")
        ∷ [],
    (
      refl,
      refl,
      (refl, refl, (refl, refl, (refl, refl, (refl, refl, tt, refl), refl), refl), refl),
      refl,
    ),
  );
}

-- For tests that run on it.
unfoldable pub sample_runs : Unit {0}
unfolding sample list_table_runs text_eq
sample_runs = tt
