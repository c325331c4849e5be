-- ===== src/Seeder/Seeded.antt =====
-- Seeding twice: a catalog that holds what is seeded is left as it is.
use gym_saas_be.Prelude.{◌≡◌, refl, inl, inr, true, List, [], ◌∷◌, arith, is_some, All}
use gym_saas_be.Errors.{ok, ended}
use gym_saas_be.Entities.{Tables, Db, Transactions, ◌>>◌, transaction_ok}
use gym_saas_be.Seeder.Grown.{
  Grows, Grows-trans, code_kept, ensure_permissions-Grows, ensure_roles-Grows,
}
use gym_saas_be.Seeder.{
  PermissionDefinition, RoleSeed, permission_definitions, role_seeds, find_permission, find_role,
  ensure_permissions, ensure_role, ensure_roles, seed_catalog,
}

module _ (t : Tables) where
  -- Every code and every key that is seeded is in the catalog.
  abbrev pub HasPermissions : Db t → List PermissionDefinition → Type 0
  HasPermissions db ps = All (λ p. is_some (find_permission t p.code db) ≡ true) ps

  abbrev pub HasRoles : Db t → List RoleSeed → Type 0
  HasRoles db seeds = All (λ seed. is_some (find_role t seed.key db) ≡ true) seeds

  known_permissions :
      (ps : List PermissionDefinition) (db : Db t)
      → HasPermissions db ps
      → ensure_permissions t ps db ≡ (ok tt, db)
  unfolding ensure_permissions
  known_permissions [] db h = refl
  known_permissions (p ∷ ps) db h = ground (arith, h.0, known_permissions ps db h.1)

  known_roles :
      (seeds : List RoleSeed) (db : Db t)
      → HasRoles db seeds
      → ensure_roles t seeds db ≡ (ok tt, db)
  unfolding ensure_roles ensure_role
  known_roles [] db h = refl
  known_roles (s ∷ seeds) db h = ground (arith, h.0, known_roles seeds db h.1)

  -- A catalog that has every seeded permission and role is left as it is.
  pub seed_catalog-known :
      (d : Transactions (Db t)) (db : Db t)
      → HasPermissions db permission_definitions
      → HasRoles db role_seeds
      → seed_catalog t d db ≡ (ok tt, db)
  unfolding seed_catalog
  seed_catalog-known d db hp hr =
      d.commit (Unit {0})
        (λ x. (ensure_permissions t permission_definitions >> ensure_roles t role_seeds) x) db db tt
        (ground
          (arith, known_permissions permission_definitions db hp, known_roles role_seeds db hr))

  all_kept :
      (ps : List PermissionDefinition) (db db' : Db t)
      → Grows t db db'
      → HasPermissions db ps
      → HasPermissions db' ps
  all_kept [] db db' g h = tt
  all_kept (p ∷ ps) db db' g h = (code_kept t p.code db db' g h.0, all_kept ps db db' g h.1)

  -- Seeding again, once it has succeeded, changes nothing; and seeding keeps the rows of all
  -- permissions and roles that were there before, as an administrator may have edited them.
  pub seed_catalog-twice :
      (d : Transactions (Db t)) (db db' : Db t) (x : Unit {0})
      → seed_catalog t d db ≡ (ok x, db')
      → (seed_catalog t d db' ≡ (ok tt, db')) × Grows t db db'
  unfolding seed_catalog
  seed_catalog-twice d db db' x e =
      let body =
        transaction_ok d
          (λ y. (ensure_permissions t permission_definitions >> ensure_roles t role_seeds) y) db db'
          x e in
      elim (ended (ensure_permissions t permission_definitions db)) [
        | inr (y, s, q) ↦ absurd (ground arith)
        | inl (y, db1, q) ↦
            let (g1, codes_known) = ensure_permissions-Grows t permission_definitions db db1 y q in
            let (g2, keys_known) = ensure_roles-Grows t role_seeds db1 db' x (ground arith) in
            (
              seed_catalog-known d db' (all_kept permission_definitions db1 db' g2 codes_known)
                  keys_known,
              Grows-trans t db db1 db' g1 g2,
            )
      ]
