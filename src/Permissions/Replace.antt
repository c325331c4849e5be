-- ===== src/Permissions/Replace.antt =====
-- What replacing a role's permissions leaves in the catalog.
use gym_saas_be.Prelude.{
  ◌≡◌, refl, ◌≢◌, ◌↔◌, ◌⊎◌, inl, inr, some, List, [], ◌∷◌, Text, arith, Option-cases, subst,
}
use mathlib.Core.List.{Memᴰ}
use native.Mathlib.Decide.{ℕ_discrete}
use gym_saas_be.Store.{Uuid, Time}
use gym_saas_be.Errors.{ok}
use gym_saas_be.Entities.{Transactions, Tables, Db, RolePermission, transaction_ok}
use gym_saas_be.Permissions.{is_grant_of}
use gym_saas_be.Permissions.Repository.{save_grants, without_grants, replace_permissions, new_grant}
use gym_saas_be.Permissions.Granted.{Grants}

module _ (t : Tables) where
  grant_kept :
      (role_id other : Uuid) (code : Text) (now : Time) (db : Db t)
      → Grants t (without_grants t role_id now db) other code
      → Grants t db other code × (other ≢ role_id)
  unfolding is_grant_of
  grant_kept role_id other code now db g =
      elim (Option-cases (t.role_permissions.row db.role_permissions g.grant.id)) [
        | inl n ↦ absurd (
            ground (
              arith,
              g.grant_row,
              t.role_permissions.soft_delete_row (is_grant_of role_id) now db.role_permissions
                  g.grant.id,
            ))
        | inr (r, e) ↦
            let same : (r ≡ g.grant) × (other ≢ role_id) = ground (
              arith,
              e,
              g.grant_row,
              g.grant_live,
              g.of_role,
              t.role_permissions.soft_delete_row (is_grant_of role_id) now db.role_permissions
                  g.grant.id,
            ) in
            (
              record {
                grant = g.grant;
                grant_row = ground (arith, e, same.0);
                grant_live = g.grant_live;
                of_role = g.of_role;
                of_code = g.of_code;
              },
              same.1,
            )
      ]

  kept_grant :
      (role_id other : Uuid) (code : Text) (now : Time) (db : Db t)
      → Grants t db other code
      → other ≢ role_id
      → Grants t (without_grants t role_id now db) other code
  unfolding is_grant_of
  kept_grant role_id other code now db g n = record {
    grant = g.grant;
    grant_row = ground (
      arith,
      g.grant_row,
      g.of_role,
      t.role_permissions.soft_delete_row (is_grant_of role_id) now db.role_permissions g.grant.id,
    );
    grant_live = g.grant_live;
    of_role = g.of_role;
    of_code = g.of_code;
  }

  -- One grant saved: it is there, and the others are as before.
  saved_grant :
      (role_id other : Uuid) (code c : Text) (db : Db t) (r : RolePermission)
      (s : t.role_permissions.Store)
      → t.role_permissions.save (new_grant role_id code) db.role_permissions ≡ some (r, s)
      → Grants t (record db { role_permissions = s }) other c
        ↔ (Grants t db other c ⊎ ((other ≡ role_id) × (c ≡ code)))
  saved_grant role_id other code c db r s e =
      let cols = t.role_permissions.save_cols _ r _ s e in
      let live = t.role_permissions.save_deleted_at _ r _ s e in
      let (set, unused) = t.role_permissions.save_new _ r _ s e refl in
      (
        (λ g. elim (ℕ_discrete g.grant.id r.id) [
          | yes same ↦
              let it : g.grant ≡ r =
                ground (arith, g.grant_row, t.role_permissions.save_row _ r _ s g.grant.id e) in
              inr (ground (arith, it, cols, g.of_role, g.of_code))
          | no other_row ↦ inl (record {
            grant = g.grant;
            grant_row =
                ground (arith, g.grant_row, t.role_permissions.save_row _ r _ s g.grant.id e);
            grant_live = g.grant_live;
            of_role = g.of_role;
            of_code = g.of_code;
          })
        ]),
        λ x. elim x [
          | inl g ↦ record {
            grant = g.grant;
            grant_row =
                ground
                  (arith, g.grant_row, unused, t.role_permissions.save_row _ r _ s g.grant.id e);
            grant_live = g.grant_live;
            of_role = g.of_role;
            of_code = g.of_code;
          }
          | inr (same, same_code) ↦ record {
            grant = r;
            grant_row = ground (arith, t.role_permissions.save_row _ r _ s r.id e);
            grant_live = live;
            of_role = ground (arith, cols);
            of_code = ground (arith, cols);
          }
        ],
      )

  abbrev IsAdded : Db t → Db t → Uuid → List Text → Type 0
  IsAdded db db' role_id codes =
      (other : Uuid) (c : Text)
      → Grants t db' other c ↔ (Grants t db other c ⊎ ((other ≡ role_id) × Memᴰ c codes))

  save_grants-cons :
      (role_id : Uuid) (code : Text) (rest : List Text) (db db' : Db t) (u : Unit {0})
      → save_grants t role_id (code ∷ rest) db ≡ (ok u, db')
      → (r : RolePermission) × (s : t.role_permissions.Store) × (t.role_permissions.save
            (new_grant role_id code)
            db.role_permissions
          ≡ some (r, s))
        × (save_grants t role_id rest (record db { role_permissions = s }) ≡ (ok u, db'))
  unfolding save_grants
  save_grants-cons role_id code rest db db' u e =
      elim (Option-cases (t.role_permissions.save (new_grant role_id code) db.role_permissions)) [
        | inl n ↦ absurd (ground arith)
        | inr ((r, s), q) ↦ (r, s, q, ground arith)
      ]

  save_grants-IsAdded :
      (role_id : Uuid) (codes : List Text) (db db' : Db t) (u : Unit {0})
      → save_grants t role_id codes db ≡ (ok u, db')
      → IsAdded db db' role_id codes
  unfolding save_grants
  save_grants-IsAdded role_id [] db db' u e other c = (
    (λ g. inl (subst (λ (x : Db t). Grants t x other c) (ground (arith, e)) g)),
    λ x. elim x [
      | inl g ↦ subst (λ (x : Db t). Grants t x other c) (ground (arith, e)) g
      | inr (_, m) ↦ elim m [ ]
    ],
  )
  save_grants-IsAdded role_id (code ∷ rest) db db' u e other c =
      let (r, s, q, tail) = save_grants-cons role_id code rest db db' u e in
      let one = saved_grant role_id other code c db r s q in
      let more =
        save_grants-IsAdded role_id rest (record db { role_permissions = s }) db' u tail other c in
      (
        (λ g. elim (more.0 g) [
          | inl g1 ↦ elim (one.0 g1) [
            | inl g2 ↦ inl g2
            | inr (same, same_code) ↦ inr (same, Memᴰ.head same_code)
          ]
          | inr (same, m) ↦ inr (same, Memᴰ.tail m)
        ]),
        λ x. elim x [
          | inl g ↦ more.1 (inl (one.1 (inl g)))
          | inr (same, Memᴰ.head same_code) ↦ more.1 (inl (one.1 (inr (same, same_code))))
          | inr (same, Memᴰ.tail m) ↦ more.1 (inr (same, m))
        ],
      )

  -- After permissions were replaced, the role is granted exactly the codes given, and every other
  -- role exactly what it was granted before.
  pub replace_permissions_lem :
      (d : Transactions (Db t)) (role_id : Uuid) (codes : List Text) (now : Time) (db db' : Db t)
      (u : Unit {0})
      → replace_permissions t d role_id codes now db ≡ (ok u, db')
      → (other : Uuid) (c : Text)
      → Grants t db' other c
        ↔ (((other ≢ role_id) × Grants t db other c) ⊎ ((other ≡ role_id) × Memᴰ c codes))
  unfolding replace_permissions
  replace_permissions_lem d role_id codes now db db' u e other c =
      let cleared = without_grants t role_id now db in
      let body =
        transaction_ok d (λ x. save_grants t role_id codes (without_grants t role_id now x)) db db'
          u e in
      let added = save_grants-IsAdded role_id codes cleared db' u body other c in
      (
        (λ g. elim (added.0 g) [
          | inl g1 ↦ let (before, n) = grant_kept role_id other c now db g1 in inl (n, before)
          | inr m ↦ inr m
        ]),
        λ x. elim x [
          | inl (n, g) ↦ added.1 (inl (kept_grant role_id other c now db g n))
          | inr m ↦ added.1 (inr m)
        ],
      )
