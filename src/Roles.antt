-- ===== src/Roles.antt =====
-- The role catalog: modules/roles (the repository over TypeORM and the use cases).
pub mod Catalog
pub mod Granting
mod Tests
use gym_saas_be.Prelude.{
  ℕ, ◌<◌, Bool, true, false, not, Option, none, some, List, [], ◌∷◌, Text, text_eq, ltb, ◌==◌,
}
use gym_saas_be.Store.{Uuid, Time}
use gym_saas_be.Errors.{
  domain, role_not_found, role_key_conflict, role_in_use, owner_role_protected, unknown_permission,
}
use gym_saas_be.Entities.{
  Role, Tables, Db, Transactions, Action, pure, throw, reads, throw_if, or_throw, saving, ◌>>=◌,
  ◌>>◌,
}
use gym_saas_be.Permissions.{is_role, roles_read}
use gym_saas_be.Permissions.Repository.{exists_active, replace_permissions}
use gym_saas_be.Permissions.Service.{require_permission}
use gym_saas_be.Memberships.{owner_role_key, count_by_role}
use gym_saas_be.Organizations.{has_key, unsaved}
use gym_saas_be.Prelude.{is_some}

pub record CreateRoleCommand : Type 0 where
  pub key : Text
  pub name : Text
  pub description : Option Text
  pub hierarchy_level : ℕ

pub record ReplaceRolePermissionsCommand : Type 0 where
  pub role_id : Uuid
  pub permission_codes : List Text

-- A field left out is `none`; `description` can also be given as `null`.
pub record UpdateRoleCommand : Type 0 where
  pub role_id : Uuid
  pub name : Option Text
  pub description : Option (Option Text)
  pub hierarchy_level : Option ℕ

abbrev pub updated : {A : Type 0} → Option A → A → A
updated none old = old
updated (some a) old = a

abbrev pub update_columns : UpdateRoleCommand → Role → Role
update_columns c role = record role {
  cols = record (role.cols) {
    name = updated c.name role.cols.name;
    description = updated c.description role.cols.description;
    hierarchy_level = updated c.hierarchy_level role.cols.hierarchy_level;
  };
}

abbrev pub new_role : CreateRoleCommand → Role
new_role c = record {
  base = unsaved;
  cols = record {
    key = c.key;
    name = c.name;
    description = c.description;
    hierarchy_level = c.hierarchy_level;
  };
}

module _ (t : Tables) where
  unfoldable pub find_by_id : Uuid → Db t → Option Role
  unfolding is_role
  find_by_id id db = t.roles.find_one (is_role id) db.roles

  unfoldable pub find_by_key : Text → Db t → Option Role
  unfolding has_key
  find_by_key key db = t.roles.find_one (has_key key) db.roles

  -- The order is that of the database; the source asks for the highest level first.
  unfoldable pub list_all : Db t → List Role
  list_all db = t.roles.find (λ r. true) db.roles

  unfoldable pub save_role : Role → Action (Db t) Role
  save_role role = saving t.roles (λ db. db.roles) (λ roles db. record db { roles = roles }) role

  unfoldable pub soft_delete_role : Uuid → Time → Db t → Db t
  unfolding is_role
  soft_delete_role id now db = record db { roles = t.roles.soft_delete (is_role id) now db.roles }

  unfoldable pub create_role : CreateRoleCommand → Action (Db t) Role
  unfolding find_by_key save_role
  create_role c = reads (find_by_key c.key) >>= λ existing.
      throw_if (is_some existing) (domain (role_key_conflict c.key)) >> save_role (new_role c)

  unfoldable pub update_role : UpdateRoleCommand → Action (Db t) Role
  unfolding find_by_id save_role
  update_role c = reads (find_by_id c.role_id) >>= λ found.
      or_throw found (domain (role_not_found c.role_id)) >>= λ role.
      save_role (update_columns c role)

  unfoldable pub delete_role : Uuid → Time → Action (Db t) (Unit {0})
  unfolding find_by_id count_by_role soft_delete_role
  delete_role role_id now = reads (find_by_id role_id) >>= λ found.
      or_throw found (domain (role_not_found role_id)) >>= λ role.
      throw_if (text_eq role.cols.key owner_role_key) (domain owner_role_protected)
      >> reads (count_by_role t role_id)
      >>= λ membership_count. throw_if (ltb 0 membership_count) (domain role_in_use) >> λ db.
          pure tt (soft_delete_role role_id now db)

  -- The loop that looks each code up in the catalog.
  unfoldable pub require_codes : List Text → Action (Db t) (Unit {0})
  unfolding exists_active
  require_codes [] = pure tt
  require_codes (code ∷ rest) =
      let others = require_codes rest in
      reads (exists_active t code) >>= λ known.
      throw_if (not known) (domain (unknown_permission code)) >> others

  unfoldable pub replace_role_permissions :
      Transactions (Db t) → ReplaceRolePermissionsCommand → Time → Action (Db t) (Unit {0})
  unfolding find_by_id require_codes replace_permissions
  replace_role_permissions d c now = reads (find_by_id c.role_id) >>= λ found.
      or_throw found (domain (role_not_found c.role_id))
      >> require_codes c.permission_codes
      >> replace_permissions t d c.role_id c.permission_codes now

  unfoldable pub list_roles : Uuid → Uuid → Action (Db t) (List Role)
  unfolding require_permission list_all
  list_roles caller_user_id organization_id =
      require_permission t caller_user_id organization_id (roles_read ∷ []) >> reads list_all
