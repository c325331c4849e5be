-- ===== src/Roles/Granting.antt =====
-- roles/application/replace-role-permissions.use-case.ts: the tables that it leaves alone.
use gym_saas_be.Prelude.{◌≡◌, refl, inl, inr, List, [], ◌∷◌, Text, arith, Option-cases}
use gym_saas_be.Store.{Time, Uuid}
use gym_saas_be.Errors.{ended}
use gym_saas_be.Entities.{Tables, Db, Transactions}
use gym_saas_be.Permissions.Repository.{new_grant, replace_permissions, save_grants, without_grants}
use gym_saas_be.Roles.{
  ReplaceRolePermissionsCommand, find_by_id, require_codes, replace_role_permissions,
}

module _ (t : Tables) where
  -- Only grants may have changed.
  abbrev pub SameButGrants : Db t → Db t → Type 0
  SameButGrants db db' = (db'.memberships ≡ db.memberships) × (db'.roles ≡ db.roles)

  save_grants-SameButGrants :
      (role_id : Uuid) (codes : List Text) (db : Db t)
      → SameButGrants db (save_grants t role_id codes db).1
  unfolding save_grants
  save_grants-SameButGrants role_id [] db = (refl, refl)
  save_grants-SameButGrants role_id (code ∷ rest) db =
      elim (Option-cases (t.role_permissions.save (new_grant role_id code) db.role_permissions)) [
        | inl n ↦ ground arith
        | inr ((r, grants), q) ↦
            let later =
              save_grants-SameButGrants role_id rest (record db { role_permissions = grants }) in
            ground (arith, later)
      ]

  replace_permissions-SameButGrants :
      (d : Transactions (Db t)) (role_id : Uuid) (codes : List Text) (now : Time) (db : Db t)
      → SameButGrants db (replace_permissions t d role_id codes now db).1
  unfolding replace_permissions
  replace_permissions-SameButGrants d role_id codes now db =
      let cleared = without_grants t role_id now db in
      let body = λ (y : Db t). save_grants t role_id codes (without_grants t role_id now y) in
      let kept = save_grants-SameButGrants role_id codes cleared in
      elim (ended (save_grants t role_id codes cleared)) [
        | inl (a, s, q) ↦ ground (arith, d.commit (Unit {0}) body db s a q, kept)
        | inr (x, s, q) ↦ ground (arith, d.rollback (Unit {0}) body db s x q)
      ]

  require_codes-reads : (codes : List Text) (db : Db t) → (require_codes t codes db).1 ≡ db
  unfolding require_codes
  require_codes-reads [] db = refl
  require_codes-reads (code ∷ rest) db = ground (arith, require_codes-reads rest db)

  -- The members and the roles are as they were, however the call ends.
  pub replace_role_permissions-SameButGrants :
      (d : Transactions (Db t)) (c : ReplaceRolePermissionsCommand) (now : Time) (db : Db t)
      → SameButGrants db (replace_role_permissions t d c now db).1
  unfolding replace_role_permissions
  replace_role_permissions-SameButGrants d c now db =
      elim (Option-cases (find_by_id t c.role_id db)) [
        | inl n ↦ ground arith
        | inr (role, q) ↦ ground (
          arith,
          require_codes-reads c.permission_codes db,
          replace_permissions-SameButGrants d c.role_id c.permission_codes now db,
          ended (require_codes t c.permission_codes db),
        )
      ]
