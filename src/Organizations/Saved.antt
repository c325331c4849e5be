-- ===== src/Organizations/Saved.antt =====
-- Saving a changed organization, as its use cases do.
use gym_saas_be.Prelude.{◌≡◌, refl, ◌≢◌, inl, inr, some, arith, Option-cases, subst, sym, ◌∙◌}
use gym_saas_be.Store.{Uuid}
use gym_saas_be.Errors.{Result, ok, err, query_failed}
use gym_saas_be.Entities.{Organization, Tables, Db}
use gym_saas_be.Organizations.{find_by_id, save_organization}
use gym_saas_be.Organizations.Deleted.{organization_row}

module _ (t : Tables) where
  -- The organization has the new columns, and nothing else has changed.
  pub record IsSaved (organization_id : Uuid) (changed : Organization) (db db' : Db t)
      (saved : Organization) : Type 0 where
    pub columns : saved.cols ≡ changed.cols
    pub stored : t.organizations.row db'.organizations organization_id ≡ some saved
    pub others :
        (i : Uuid)
        → i ≢ organization_id
        → t.organizations.row db'.organizations i ≡ t.organizations.row db.organizations i
    pub rest : db' ≡ record db { organizations = db'.organizations }

  abbrev pub AfterSave : Uuid → Organization → Db t → Result Organization × Db t → Type 0
  AfterSave id changed db (ok saved, db') = IsSaved id changed db db' saved
  AfterSave id changed db (err x, db') = db' ≡ db

  -- Saving a changed copy of an organization that was found stores it in its place; if the query
  -- fails, nothing has changed.
  pub save_organization_lem :
      (id : Uuid) (o changed : Organization) (db : Db t)
      → find_by_id t id db ≡ some o
      → changed.id ≡ o.id
      → AfterSave id changed db (save_organization t changed db)
  unfolding save_organization
  save_organization_lem id o p db q same_id =
      elim (Option-cases (t.organizations.save p db.organizations)) [
        | inl n ↦
            let after : save_organization t p db
                ≡ (err (query_failed (t.organizations.save_error p db.organizations)), db) =
              ground arith in
            subst (AfterSave id p db) (sym after) refl
        | inr ((r, os), e) ↦
            let (row, live, at_id) = organization_row t id o db q in
            let nonzero : p.id ≢ 0 =
              ground (arith, row, same_id, t.organizations.row_zero db.organizations) in
            let same = t.organizations.save_id p r db.organizations os e nonzero ∙ same_id in
            let after : save_organization t p db ≡ (ok r, record db { organizations = os }) =
              ground arith in
            subst (AfterSave id p db) (sym after) (record {
              columns = t.organizations.save_cols p r db.organizations os e;
              stored =
                  ground
                    (arith, t.organizations.save_row p r db.organizations os id e, same, at_id);
              others = λ i n.
                  ground (arith, t.organizations.save_row p r db.organizations os i e, same, at_id);
              rest = refl;
            })
      ]
