-- ===== src/Seeder/Grown.antt =====
-- What seeding adds: after it, all that is seeded is found.
use gym_saas_be.Prelude.{
  ◌≡◌, refl, inl, inr, Bool, true, some, List, [], ◌∷◌, Text, text_eq_iff, arith, is_some,
  Bool-cases, Option-cases, All, sym, subst,
}
use gym_saas_be.Store.{Uuid, Stored, Visible, Table}
use gym_saas_be.Errors.{ok, ended}
use gym_saas_be.Entities.{Role, Permission, Tables, Db}
use gym_saas_be.Organizations.{has_key}
use gym_saas_be.Permissions.Repository.{save_grants, new_grant}
use gym_saas_be.Roles.{save_role}
use gym_saas_be.Seeder.{
  PermissionDefinition, RoleSeed, new_permission, seeded_role, has_code_of, find_permission,
  find_role, save_permission, create_role_with_grants, ensure_permissions, ensure_role,
  ensure_roles,
}

-- A visible row is found by a query that it matches, if perhaps not as the first.
some_found :
    {C : Type 0} {same : C → C → Bool} {partial : Bool} (t : Table same partial)
    (p : Stored C → Bool) (s : t.Store) (i : Uuid) (r : Stored C)
    → t.row s i ≡ some r
    → Visible p r
    → is_some (t.find_one p s) ≡ true
some_found t p s i r row v = elim (Option-cases (t.find_one p s)) [
  | inl n ↦ absurd (ground (arith, t.find_one_none p s i r n row v.0, v.1))
  | inr (a, e) ↦ ground (arith, e)
]

module _ (t : Tables) where
  -- Permissions and roles that were there are there as before.
  pub record Grows (db db' : Db t) : Type 0 where
    pub permissions_kept :
        (i : Uuid) (p : Permission)
        → t.permissions.row db.permissions i ≡ some p
        → t.permissions.row db'.permissions i ≡ some p
    pub roles_kept :
        (i : Uuid) (r : Role) → t.roles.row db.roles i ≡ some r → t.roles.row db'.roles i ≡ some r

  abbrev same_Grows : (db : Db t) → Grows db db
  same_Grows db = record { permissions_kept = λ i p e. e; roles_kept = λ i r e. e }

  pub Grows-trans : (db1 db2 db3 : Db t) → Grows db1 db2 → Grows db2 db3 → Grows db1 db3
  Grows-trans db1 db2 db3 g h = record {
    permissions_kept = λ i p e. h.permissions_kept i p (g.permissions_kept i p e);
    roles_kept = λ i r e. h.roles_kept i r (g.roles_kept i r e);
  }

  abbrev KnowsCode : Db t → Text → Type 0
  KnowsCode db code = is_some (find_permission t code db) ≡ true

  abbrev KnowsKey : Db t → Text → Type 0
  KnowsKey db key = is_some (find_role t key db) ≡ true

  pub code_kept :
      (code : Text) (db db' : Db t) → Grows db db' → KnowsCode db code → KnowsCode db' code
  unfolding find_permission
  code_kept code db db' g h = elim (Option-cases (find_permission t code db)) [
    | inl n ↦ absurd (ground arith)
    | inr (p, e) ↦
        let (row, v) = t.permissions.find_one_some (has_code_of code) db.permissions p e in
        some_found t.permissions (has_code_of code) db'.permissions p.id p
          (g.permissions_kept p.id p row) v
  ]

  pub key_kept : (key : Text) (db db' : Db t) → Grows db db' → KnowsKey db key → KnowsKey db' key
  unfolding find_role
  key_kept key db db' g h = elim (Option-cases (find_role t key db)) [
    | inl n ↦ absurd (ground arith)
    | inr (r, e) ↦
        let (row, v) = t.roles.find_one_some (has_key key) db.roles r e in
        some_found t.roles (has_key key) db'.roles r.id r (g.roles_kept r.id r row) v
  ]

  save_permission-Grows :
      (p : PermissionDefinition) (db db' : Db t) (x : Unit {0})
      → save_permission t p db ≡ (ok x, db')
      → Grows db db' × KnowsCode db' p.code
  unfolding save_permission find_permission has_code_of
  save_permission-Grows p db db' x e =
      elim (Option-cases (t.permissions.save (new_permission p) db.permissions)) [
        | inl n ↦ absurd (ground arith)
        | inr ((saved, ps), q) ↦
            let cols = t.permissions.save_cols _ saved db.permissions ps q in
            let live = t.permissions.save_deleted_at _ saved db.permissions ps q in
            let (set, unused) = t.permissions.save_new _ saved db.permissions ps q refl in
            let after : record db { permissions = ps } ≡ db' = ground arith in
            let row : t.permissions.row ps saved.id ≡ some saved =
              ground (arith, t.permissions.save_row _ saved db.permissions ps saved.id q) in
            subst (λ (y : Db t). Grows db y × KnowsCode y p.code) after
              (
                record {
                  permissions_kept = λ i a r.
                      ground
                        (arith, r, unused, t.permissions.save_row _ saved db.permissions ps i q);
                  roles_kept = λ i r k. k;
                },
                some_found t.permissions (has_code_of p.code) ps saved.id saved row
                    (live, (text_eq_iff _ _).1 (rw cols refl)),
              )
      ]

  pub ensure_permissions-Grows :
      (ps : List PermissionDefinition) (db db' : Db t) (x : Unit {0})
      → ensure_permissions t ps db ≡ (ok x, db')
      → Grows db db' × All (λ p. KnowsCode db' p.code) ps
  unfolding ensure_permissions
  ensure_permissions-Grows [] db db' x e =
      (subst (λ (y : Db t). Grows db y) (ground arith) (same_Grows db), tt)
  ensure_permissions-Grows (p ∷ ps) db db' x e =
      elim (Bool-cases (is_some (find_permission t p.code db))) [
        | inl known ↦
            let (g, all_known) = ensure_permissions-Grows ps db db' x (ground arith) in
            (g, (code_kept p.code db db' g known, all_known))
        | inr new ↦ elim (ended (save_permission t p db)) [
          | inr (y, s, q) ↦ absurd (ground arith)
          | inl (y, db1, q) ↦
              let (g1, known) = save_permission-Grows p db db1 y q in
              let (g2, all_known) = ensure_permissions-Grows ps db1 db' x (ground arith) in
              (Grows-trans db db1 db' g1 g2, (code_kept p.code db1 db' g2 known, all_known))
        ]
      ]

  same_catalog :
      (role_id : Uuid) (codes : List Text) (db db' : Db t) (x : Unit {0})
      → save_grants t role_id codes db ≡ (ok x, db')
      → (db'.permissions ≡ db.permissions) × (db'.roles ≡ db.roles)
  unfolding save_grants
  same_catalog role_id [] db db' x e = (ground arith, ground arith)
  same_catalog role_id (code ∷ codes) db db' x e =
      elim (Option-cases (t.role_permissions.save (new_grant role_id code) db.role_permissions)) [
        | inl n ↦ absurd (ground arith)
        | inr ((r, s), q) ↦
            same_catalog role_id codes (record db { role_permissions = s }) db' x (ground arith)
      ]

  create_role-Grows :
      (seed : RoleSeed) (db db' : Db t) (x : Unit {0})
      → create_role_with_grants t seed db ≡ (ok x, db')
      → Grows db db' × KnowsKey db' seed.key
  unfolding create_role_with_grants save_role find_role has_key
  create_role-Grows seed db db' x e =
      elim (Option-cases (t.roles.save (seeded_role seed) db.roles)) [
        | inl n ↦ absurd (ground arith)
        | inr ((saved, rs), q) ↦
            let cols = t.roles.save_cols _ saved db.roles rs q in
            let live = t.roles.save_deleted_at _ saved db.roles rs q in
            let (set, unused) = t.roles.save_new _ saved db.roles rs q refl in
            let row : t.roles.row rs saved.id ≡ some saved =
              ground (arith, t.roles.save_row _ saved db.roles rs saved.id q) in
            let same =
              same_catalog saved.id seed.permissions (record db { roles = rs }) db' x
                (ground arith) in
            (
              record {
                permissions_kept = λ i a r. ground (arith, r, same.0);
                roles_kept = λ i a r.
                    ground (arith, r, same.1, unused, t.roles.save_row _ saved db.roles rs i q);
              },
              subst (λ (y : t.roles.Store). is_some (t.roles.find_one (has_key seed.key) y) ≡ true)
                  (sym same.1)
                  (some_found t.roles (has_key seed.key) rs saved.id saved row
                    (live, (text_eq_iff _ _).1 (rw cols refl))),
            )
      ]

  ensure_role-Grows :
      (seed : RoleSeed) (db db' : Db t) (x : Unit {0})
      → ensure_role t seed db ≡ (ok x, db')
      → Grows db db' × KnowsKey db' seed.key
  unfolding ensure_role
  ensure_role-Grows seed db db' x e = elim (Bool-cases (is_some (find_role t seed.key db))) [
    | inl known ↦
        let same : db ≡ db' = ground arith in
        (
          subst (λ (y : Db t). Grows db y) same (same_Grows db),
          subst (λ (y : Db t). KnowsKey y seed.key) same known,
        )
    | inr new ↦ create_role-Grows seed db db' x (ground arith)
  ]

  pub ensure_roles-Grows :
      (seeds : List RoleSeed) (db db' : Db t) (x : Unit {0})
      → ensure_roles t seeds db ≡ (ok x, db')
      → Grows db db' × All (λ seed. KnowsKey db' seed.key) seeds
  unfolding ensure_roles
  ensure_roles-Grows [] db db' x e =
      (subst (λ (y : Db t). Grows db y) (ground arith) (same_Grows db), tt)
  ensure_roles-Grows (seed ∷ seeds) db db' x e = elim (ended (ensure_role t seed db)) [
    | inr (y, s, q) ↦ absurd (ground arith)
    | inl (y, db1, q) ↦
        let (g1, known) = ensure_role-Grows seed db db1 y q in
        let (g2, all_known) = ensure_roles-Grows seeds db1 db' x (ground arith) in
        (Grows-trans db db1 db' g1 g2, (key_kept seed.key db1 db' g2 known, all_known))
  ]
