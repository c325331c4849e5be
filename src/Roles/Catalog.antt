-- ===== src/Roles/Catalog.antt =====
-- What the use cases of the catalog do to its roles.
use gym_saas_be.Prelude.{
  ◌≡◌, refl, ◌≢◌, ◌⊎◌, inl, inr, false, none, some, text_eq, text_eq_iff, arith, Option-cases,
  Bool-cases, ◌==◌, ltb, is_some, sym, subst,
}
use gym_saas_be.Store.{Uuid, Time}
use gym_saas_be.Store.Queries.{soft_delete-other, soft_delete-live, count-pos}
use gym_saas_be.Errors.{ok}
use gym_saas_be.Entities.{Role, Membership, Tables, Db}
use gym_saas_be.Permissions.{is_role}
use gym_saas_be.Memberships.{owner_role_key, count_by_role, has_role}
use gym_saas_be.Roles.{
  UpdateRoleCommand, CreateRoleCommand, update_columns, new_role, find_by_id, find_by_key,
  save_role, soft_delete_role, create_role, update_role, delete_role,
}

module _ (t : Tables) where
  -- A role that may be deleted: it is live, not the owners', and no live membership has it.
  pub record IsDeletable (role_id : Uuid) (db : Db t) : Type 0 where
    pub role : Role
    pub role_row : t.roles.row db.roles role_id ≡ some role
    pub not_owner : role.cols.key ≢ owner_role_key
    pub unused :
        (i : Uuid) (m : Membership)
        → t.memberships.row db.memberships i ≡ some m
        → m.deleted_at ≡ none
        → m.cols.role_id ≢ role_id

  pub role_row :
      (i : Uuid) (role : Role) (db : Db t)
      → find_by_id t i db ≡ some role
      → (t.roles.row db.roles i ≡ some role) × (role.deleted_at ≡ none) × (role.id ≡ i)
  unfolding find_by_id is_role
  role_row i role db e =
      let (row, v) = t.roles.find_one_some (is_role i) db.roles role e in
      let at_id : role.id ≡ i = ground (arith, v.1) in
      (subst (λ (j : Uuid). t.roles.row db.roles j ≡ some role) at_id row, v.0, at_id)

  unused_role :
      (role_id : Uuid) (db : Db t) (i : Uuid) (m : Membership)
      → ltb 0 (count_by_role t role_id db) ≡ false
      → t.memberships.row db.memberships i ≡ some m
      → m.deleted_at ≡ none
      → m.cols.role_id ≢ role_id
  unfolding count_by_role has_role
  unused_role role_id db i m e row live same = ground (
    arith,
    e,
    count-pos t.memberships (has_role role_id) db.memberships i m row (live, ground (arith, same)),
  )

  other_role :
      (role_id : Uuid) (now : Time) (db : Db t) (i : Uuid)
      → i ≢ role_id
      → t.roles.row (soft_delete_role t role_id now db).roles i ≡ t.roles.row db.roles i
  unfolding soft_delete_role is_role
  other_role role_id now db i n =
      soft_delete-other t.roles (is_role role_id) now db.roles i (λ a e. ground arith)

  gone :
      (role_id : Uuid) (now : Time) (db : Db t)
      → find_by_id t role_id (soft_delete_role t role_id now db) ≡ none
  unfolding soft_delete_role is_role
  gone role_id now db =
      elim (Option-cases (find_by_id t role_id (soft_delete_role t role_id now db))) [
        | inl n ↦ n
        | inr (r, q) ↦
            let (row, live, at_id) = role_row role_id r (soft_delete_role t role_id now db) q in
            let (before, unmatched, same) =
              soft_delete-live t.roles (is_role role_id) now db.roles role_id r row live in
            absurd (ground (arith, unmatched, at_id))
      ]

  -- Deleting a role: it succeeds only for a role of the catalog that is not the owners' and that no
  -- live membership has, and then the role is not found, and every other role and every membership
  -- is as it was; otherwise nothing changes.
  pub delete_role_lem :
      (role_id : Uuid) (now : Time) (db : Db t)
      → let (result, db') = delete_role t role_id now db in
        ((result ≡ ok tt)
          × IsDeletable role_id db
          × (find_by_id t role_id db' ≡ none)
          × ((i : Uuid) → i ≢ role_id → t.roles.row db'.roles i ≡ t.roles.row db.roles i)
          × (db'.memberships ≡ db.memberships))
        ⊎ ((result ≢ ok tt) × (db' ≡ db))
  unfolding delete_role
  delete_role_lem role_id now db = elim (Option-cases (find_by_id t role_id db)) [
    | inl n ↦ inr (ground arith, ground arith)
    | inr (role, q) ↦ elim (Bool-cases (text_eq role.cols.key owner_role_key)) [
      | inl owner ↦ inr (ground arith, ground arith)
      | inr other ↦ elim (Bool-cases (ltb 0 (count_by_role t role_id db))) [
        | inl used ↦ inr (ground arith, ground arith)
        | inr unused ↦
            let after : (delete_role t role_id now db).1 ≡ soft_delete_role t role_id now db =
              ground arith in
            inl (
              ground arith,
              record {
                role = role;
                role_row = (role_row role_id role db q).0;
                not_owner = λ e. ground (arith, other, text_eq_iff role.cols.key owner_role_key);
                unused = λ i m row live. unused_role role_id db i m unused row live;
              },
              subst (λ (x : Db t). find_by_id t role_id x ≡ none) (sym after) (gone role_id now db),
              (λ i n.
                  subst (λ (x : Db t). t.roles.row x.roles i ≡ t.roles.row db.roles i) (sym after)
                    (other_role role_id now db i n)),
              subst (λ (x : Db t). x.memberships ≡ db.memberships) (sym after)
                  (kept role_id now db),
            )
      ]
    ]
  ]
    where
      kept :
          (role_id : Uuid) (now : Time) (db : Db t)
          → (soft_delete_role t role_id now db).memberships ≡ db.memberships
      kept role_id now db = ground arith

  update_role-cases :
      (c : UpdateRoleCommand) (db : Db t)
      → ((update_role t c db).1 ≡ db)
        ⊎ ((role saved : Role) × (roles : t.roles.Store) × (find_by_id t c.role_id db ≡ some role)
            × (t.roles.save (update_columns c role) db.roles ≡ some (saved, roles))
            × ((update_role t c db).1 ≡ record db { roles = roles }))
  unfolding update_role save_role
  update_role-cases c db = elim (Option-cases (find_by_id t c.role_id db)) [
    | inl n ↦ inl (ground arith)
    | inr (role, q) ↦ elim (Option-cases (t.roles.save (update_columns c role) db.roles)) [
      | inl n ↦ inl (ground arith)
      | inr ((saved, roles), e) ↦ inr (role, saved, roles, q, e, ground arith)
    ]
  ]

  -- Updating a role keeps the id, the key and the deletion state of every role of the catalog, and
  -- all memberships.
  pub update_role_lem :
      (c : UpdateRoleCommand) (db : Db t) (i : Uuid) (role : Role)
      → t.roles.row db.roles i ≡ some role
      → let db' = (update_role t c db).1 in
        ((role' : Role) × (t.roles.row db'.roles i ≡ some role')
          × (role'.cols.key ≡ role.cols.key)
          × (role'.deleted_at ≡ role.deleted_at))
        × (db'.memberships ≡ db.memberships)
  update_role_lem c db i role row = elim (update_role-cases c db) [
    | inl same ↦ (
      (role, subst (λ (x : Db t). t.roles.row x.roles i ≡ some role) (sym same) row, refl, refl),
      subst (λ (x : Db t). x.memberships ≡ db.memberships) (sym same) refl,
    )
    | inr (old, saved, roles, q, e, after) ↦
        let (row_o, live, at_id) = role_row c.role_id old db q in
        let cols = t.roles.save_cols _ saved db.roles roles e in
        let del = t.roles.save_deleted_at _ saved db.roles roles e in
        let n : old.id ≢ 0 = λ z. ground (arith, t.roles.row_zero db.roles, row_o, z, at_id) in
        let same_id = t.roles.save_id _ saved db.roles roles e n in
        let set = t.roles.save_row _ saved db.roles roles i e in
        (
          subst
              (λ (x : Db t).
                (role' : Role) × (t.roles.row x.roles i ≡ some role')
                × (role'.cols.key ≡ role.cols.key)
                × (role'.deleted_at ≡ role.deleted_at))
              (sym after)
              (elim (Bool-cases (i == saved.id)) [
                | inl here ↦
                    let it : old ≡ role = ground (arith, here, same_id, at_id, row_o, row) in
                    (saved, ground arith, ground (arith, cols, it), ground (arith, del, it))
                | inr there ↦ (role, ground arith, refl, refl)
              ]),
          subst (λ (x : Db t). x.memberships ≡ db.memberships) (sym after) refl,
        )
  ]

  -- Creating a role keeps the roles of the catalog and the memberships.
  pub create_role_kept :
      (c : CreateRoleCommand) (db : Db t) (i : Uuid) (role : Role)
      → t.roles.row db.roles i ≡ some role
      → let db' = (create_role t c db).1 in
        (t.roles.row db'.roles i ≡ some role) × (db'.memberships ≡ db.memberships)
  unfolding create_role save_role
  create_role_kept c db i role row = elim (Bool-cases (is_some (find_by_key t c.key db))) [
    | inl known ↦ (ground (arith, row), ground arith)
    | inr free ↦ elim (Option-cases (t.roles.save (new_role c) db.roles)) [
      | inl n ↦ (ground (arith, row), ground arith)
      | inr ((saved, roles), e) ↦
          let (set, unused) = t.roles.save_new _ saved db.roles roles e refl in
          let kept : t.roles.row roles i ≡ some role =
            ground (arith, row, unused, t.roles.save_row _ saved db.roles roles i e) in
          (ground (arith, kept), ground arith)
    ]
  ]
