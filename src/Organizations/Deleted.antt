-- ===== src/Organizations/Deleted.antt =====
-- What deleting an organization changes.
use gym_saas_be.Prelude.{
  ◌≡◌, refl, ◌≢◌, ◌⊎◌, inl, inr, true, none, some, [], ◌∷◌, arith, Option-cases, Bool-cases, subst,
  sym,
}
use gym_saas_be.Store.{Uuid, Time}
use gym_saas_be.Store.Queries.{soft_delete-other, soft_delete-live}
use gym_saas_be.Errors.{Result, ok}
use gym_saas_be.Entities.{Organization, Tables, Db}
use gym_saas_be.Permissions.{organization_delete}
use gym_saas_be.Permissions.Service.{check_permission, require_permission}
use gym_saas_be.Organizations.{find_by_id, is_organization, soft_delete_organization}
use gym_saas_be.Organizations.UseCases.{delete_organization}

module _ (t : Tables) where
  pub organization_row :
      (i : Uuid) (o : Organization) (db : Db t)
      → find_by_id t i db ≡ some o
      → (t.organizations.row db.organizations i ≡ some o) × (o.deleted_at ≡ none) × (o.id ≡ i)
  unfolding find_by_id is_organization
  organization_row i o db e =
      let (row, v) = t.organizations.find_one_some (is_organization i) db.organizations o e in
      let at_id : o.id ≡ i = ground (arith, v.1) in
      (subst (λ (j : Uuid). t.organizations.row db.organizations j ≡ some o) at_id row, v.0, at_id)

  other_organization :
      (id : Uuid) (now : Time) (db : Db t) (i : Uuid)
      → i ≢ id
      → t.organizations.row (soft_delete_organization t id now db).organizations i
        ≡ t.organizations.row db.organizations i
  unfolding soft_delete_organization is_organization
  other_organization id now db i n =
      soft_delete-other t.organizations (is_organization id) now db.organizations i
        (λ a e. ground arith)

  gone :
      (id : Uuid) (now : Time) (db : Db t)
      → find_by_id t id (soft_delete_organization t id now db) ≡ none
  unfolding soft_delete_organization is_organization
  gone id now db =
      let db' = soft_delete_organization t id now db in
      elim (Option-cases (find_by_id t id db')) [
        | inl n ↦ n
        | inr (o, q) ↦
            let (row, live, at_id) = organization_row id o db' q in
            let (before, unmatched, same) =
              soft_delete-live t.organizations (is_organization id) now db.organizations id o row
                live in
            absurd (ground (arith, unmatched, at_id))
      ]

  -- What a deletion that has gone through changed, and what it took.
  abbrev pub IsDeleted : (caller_user_id organization_id : Uuid) → (db db' : Db t) → Type 0
  IsDeleted caller_user_id organization_id db db' =
      (check_permission t caller_user_id organization_id (organization_delete ∷ []) db ≡ true)
      × ((o : Organization) × (find_by_id t organization_id db ≡ some o))
      × (find_by_id t organization_id db' ≡ none)
      × ((i : Uuid)
          → i ≢ organization_id
          → t.organizations.row db'.organizations i ≡ t.organizations.row db.organizations i)
      × (db'.memberships ≡ db.memberships)
      × (db'.users ≡ db.users)
      × (db'.roles ≡ db.roles)

  -- The end of a call that deletes an organization.
  abbrev pub AfterDelete :
      (caller_user_id organization_id : Uuid) → Db t → Result (Unit {0}) × Db t → Type 0
  AfterDelete caller_user_id organization_id db o =
      ((o.0 ≡ ok tt) × IsDeleted caller_user_id organization_id db o.1)
      ⊎ ((o.0 ≢ ok tt) × (o.1 ≡ db))

  soft_delete-IsDeleted :
      (caller id : Uuid) (now : Time) (db : Db t) (o : Organization)
      → check_permission t caller id (organization_delete ∷ []) db ≡ true
      → find_by_id t id db ≡ some o
      → IsDeleted caller id db (soft_delete_organization t id now db)
  unfolding soft_delete_organization
  soft_delete-IsDeleted caller id now db o granted q =
      (granted, (o, q), gone id now db, other_organization id now db, refl, refl, refl)

  -- Deleting an organization succeeds only for a caller with the permission to delete it there and
  -- for an organization that is found, and then the organization is not found, and every other
  -- organization, every membership, user and role is as it was; otherwise nothing changes.
  pub delete_organization_lem :
      (caller_user_id organization_id : Uuid) (now : Time) (db : Db t)
      → AfterDelete caller_user_id organization_id db
          (delete_organization t caller_user_id organization_id now db)
  unfolding delete_organization require_permission soft_delete_organization
  delete_organization_lem caller id now db =
      elim (Bool-cases (check_permission t caller id (organization_delete ∷ []) db)) [
        | inr refused ↦ inr (ground arith, ground arith)
        | inl granted ↦ elim (Option-cases (find_by_id t id db)) [
          | inl n ↦ inr (ground arith, ground arith)
          | inr (o, q) ↦
              let after : delete_organization t caller id now db
                  ≡ (ok tt, soft_delete_organization t id now db) =
                ground arith in
              subst (AfterDelete caller id db) (sym after)
                (inl (refl, soft_delete-IsDeleted caller id now db o granted q))
        ]
      ]
