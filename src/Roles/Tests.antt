-- ===== src/Roles/Tests.antt =====
-- The catalog's use cases on the sample database, and the theorems applied to it.
use gym_saas_be.Prelude.{◌≡◌, refl, ◌≢◌, ◌⊎◌, none, some, codes}
use gym_saas_be.Samples.{tables, sample, sample_runs, role}
use gym_saas_be.Store.{Uuid}
use gym_saas_be.Errors.{ok, err, domain, role_in_use, owner_role_protected}
use gym_saas_be.Entities.{Role}
use gym_saas_be.Roles.{UpdateRoleCommand, delete_role, update_role, find_by_id}
use gym_saas_be.Roles.Catalog.{IsDeletable, delete_role_lem, update_role_lem}

abbrev rename : UpdateRoleCommand
rename = record {
  role_id = 2;
  name = some (codes "Desk");
  description = none;
  hierarchy_level = none;
}

runs : Unit {0}
unfolding sample_runs delete_role update_role
runs = tt

owner_protected : (delete_role tables 1 50 sample).0 ≡ err (domain owner_role_protected)
unfolding runs
owner_protected = refl

used_role : (delete_role tables 2 50 sample).0 ≡ err (domain role_in_use)
unfolding runs
used_role = refl

delete_role_lem_example :
    let (result, db') = delete_role tables 3 50 sample in
    ((result ≡ ok tt)
      × IsDeletable tables 3 sample
      × (find_by_id tables 3 db' ≡ none)
      × ((i : Uuid) → i ≢ 3 → tables.roles.row db'.roles i ≡ tables.roles.row sample.roles i)
      × (db'.memberships ≡ sample.memberships))
    ⊎ ((result ≢ ok tt) × (db' ≡ sample))
delete_role_lem_example = delete_role_lem tables 3 50 sample

update_role_lem_example :
    let db' = (update_role tables rename sample).1 in
    ((role' : Role) × (tables.roles.row db'.roles 2 ≡ some role')
      × (role'.cols.key ≡ codes "desk")
      × (role'.deleted_at ≡ none))
    × (db'.memberships ≡ sample.memberships)
unfolding sample_runs
update_role_lem_example = update_role_lem tables rename sample 2 (role 2 (codes "desk")) refl
