-- ===== src/Organizations/Created.antt =====
-- What creating an organization leaves in the database.
use gym_saas_be.Prelude.{
  ℕ, ◌+◌, ◌≡◌, refl, inl, inr, none, some, Text, text_eq_iff, arith, Option-cases, subst, trim,
  Unicode,
}
use gym_saas_be.Store.{Uuid, Time}
use gym_saas_be.Errors.{Result, ok, err}
use gym_saas_be.Entities.{
  Organization, Membership, Role, Tables, Db, Transactions, transaction_ok, transaction_err,
}
use gym_saas_be.Memberships.{owner_role_key, save_membership}
use gym_saas_be.Permissions.Granted.{HasRole}
use gym_saas_be.Organizations.{
  new_organization, new_membership, trial_ms, base_slug, find_by_slug, save_organization,
  first_free, create_body, create_with_owner, create_organization, has_key,
}
use gym_saas_be.Organizations.Free.{first_free-first}

module _ (t : Tables) where
  -- The writes of a transaction that went through.
  pub record IsStored (organization : Organization) (owner_user_id : Uuid) (o : Organization)
      (db db' : Db t) : Type 0 where
    pub role : Role
    pub role_found : t.roles.find_one (has_key owner_role_key) db.roles ≡ some role
    pub organizations : t.organizations.Store
    pub organization_saved :
        t.organizations.save organization db.organizations ≡ some (o, organizations)
    pub member : Membership
    pub memberships : t.memberships.Store
    pub member_saved :
        t.memberships.save (new_membership owner_user_id o.id role.id) db.memberships
        ≡ some (member, memberships)
    pub result : db' ≡ record db { organizations = organizations; memberships = memberships }

  create_body-IsStored :
      (organization : Organization) (owner_user_id : Uuid) (o : Organization) (db db' : Db t)
      → create_body t organization owner_user_id db ≡ (ok o, db')
      → IsStored organization owner_user_id o db db'
  unfolding create_body save_organization save_membership
  create_body-IsStored organization owner o db db' e =
      elim (Option-cases (t.roles.find_one (has_key owner_role_key) db.roles)) [
        | inl n ↦ absurd (ground arith)
        | inr (role, q) ↦ elim (Option-cases (t.organizations.save organization db.organizations)) [
          | inl n ↦ absurd (ground arith)
          | inr ((o1, os), q1) ↦
              elim (Option-cases
                (t.memberships.save (new_membership owner o1.id role.id) db.memberships)) [
                  | inl n ↦ absurd (ground arith)
                  | inr ((m, ms), q2) ↦
                      let same : o1 ≡ o = ground arith in
                      record {
                        role = role;
                        role_found = q;
                        organizations = os;
                        organization_saved = ground arith;
                        member = m;
                        memberships = ms;
                        member_saved =
                            subst
                              (λ (x : Organization).
                                t.memberships.save (new_membership owner x.id role.id)
                                  db.memberships
                                ≡ some (m, ms))
                              same q2;
                        result = ground arith;
                      }
                ]
        ]
      ]

  -- The organization is stored under a slug that was free, its creator is a member with the owners'
  -- role, and what was in the tables still is.
  pub record IsCreated (owner_user_id : Uuid) (name : Text) (now : Time) (o : Organization)
      (db db' : Db t) : Type 0 where
    pub organization_row : t.organizations.row db'.organizations o.id ≡ some o
    pub organization_live : o.deleted_at ≡ none
    pub named : o.cols.name ≡ trim name
    pub slug_free : find_by_slug t o.cols.slug db ≡ none
    pub trial : o.cols.trial_ends_at ≡ some (now + trial_ms)
    pub role : Role
    pub role_key : role.cols.key ≡ owner_role_key
    pub is_member : HasRole t db' owner_user_id o.id role
    pub organizations_kept :
        (i : Uuid) (a : Organization)
        → t.organizations.row db.organizations i ≡ some a
        → t.organizations.row db'.organizations i ≡ some a
    pub memberships_kept :
        (i : Uuid) (m : Membership)
        → t.memberships.row db.memberships i ≡ some m
        → t.memberships.row db'.memberships i ≡ some m
    pub same_roles : db'.roles ≡ db.roles
    pub rest : db' ≡ record db { organizations = db'.organizations; memberships = db'.memberships }

  IsStored-IsCreated :
      (owner : Uuid) (name slug : Text) (now : Time) (o : Organization) (db db' : Db t)
      → find_by_slug t slug db ≡ none
      → IsStored (new_organization (trim name) slug now) owner o db db'
      → IsCreated owner name now o db db'
  unfolding has_key
  IsStored-IsCreated owner name slug now o db db' free s =
      let cols =
        t.organizations.save_cols _ o db.organizations s.organizations s.organization_saved in
      let m_cols = t.memberships.save_cols _ s.member db.memberships s.memberships s.member_saved in
      let (o_set, o_new) =
        t.organizations.save_new _ o db.organizations s.organizations s.organization_saved refl in
      let (m_set, m_new) =
        t.memberships.save_new _ s.member db.memberships s.memberships s.member_saved refl in
      let (role_row, v) =
        t.roles.find_one_some (has_key owner_role_key) db.roles s.role s.role_found in
      record {
        organization_row = ground (
          arith,
          s.result,
          t.organizations.save_row _ o db.organizations s.organizations o.id s.organization_saved,
        );
        organization_live =
            t.organizations.save_deleted_at _ o db.organizations s.organizations
              s.organization_saved;
        named = ground (arith, cols);
        slug_free = subst (λ (x : Text). find_by_slug t x db ≡ none) (ground (arith, cols)) free;
        trial = ground (arith, cols);
        role = s.role;
        role_key = (text_eq_iff _ _).0 v.1;
        is_member = record {
          member = s.member;
          member_row = ground (
            arith,
            s.result,
            t.memberships.save_row _ s.member db.memberships s.memberships s.member.id
                s.member_saved,
          );
          member_live =
              t.memberships.save_deleted_at _ s.member db.memberships s.memberships s.member_saved;
          of_user = ground (arith, m_cols);
          of_organization = ground (arith, m_cols);
          role_row = ground (arith, m_cols, s.result, role_row);
          role_live = v.0;
        };
        organizations_kept = λ i a row. ground (
          arith,
          row,
          s.result,
          o_new,
          t.organizations.save_row _ o db.organizations s.organizations i s.organization_saved,
        );
        memberships_kept = λ i m row. ground (
          arith,
          row,
          s.result,
          m_new,
          t.memberships.save_row _ s.member db.memberships s.memberships i s.member_saved,
        );
        same_roles = ground (arith, s.result);
        rest = ground (arith, s.result);
      }

  -- How a call of the use case has ended.
  abbrev pub AfterCreate : Uuid → Text → Time → Db t → Result Organization → Db t → Type 0
  AfterCreate owner name now db (ok o) db' = IsCreated owner name now o db db'
  AfterCreate owner name now db (err e) db' = db' ≡ db

  with_owner_lem :
      (d : Transactions (Db t)) (owner : Uuid) (name slug : Text) (now : Time) (db db' : Db t)
      (r : Result Organization)
      → find_by_slug t slug db ≡ none
      → create_with_owner t d (new_organization (trim name) slug now) owner db ≡ (r, db')
      → AfterCreate owner name now db r db'
  unfolding create_with_owner
  with_owner_lem d owner name slug now db db' (ok o) free e =
      let body = create_body t (new_organization (trim name) slug now) owner in
      IsStored-IsCreated owner name slug now o db db' free (
        create_body-IsStored (new_organization (trim name) slug now) owner o db db'
          (transaction_ok d body db db' o e))
  with_owner_lem d owner name slug now db db' (err x) free e =
      transaction_err d (create_body t (new_organization (trim name) slug now) owner) db db' x e

  -- What a call leaves that has a result.
  pub create_organization_lem :
      (d : Transactions (Db t)) (u : Unicode) (fuel : ℕ) (owner_user_id : Uuid) (name : Text)
      (now : Time) (db db' : Db t) (r : Result Organization)
      → create_organization t d u fuel owner_user_id name now db ≡ some (r, db')
      → AfterCreate owner_user_id name now db r db'
  unfolding create_organization
  create_organization_lem d u fuel owner name now db db' r e =
      elim (Option-cases (first_free t fuel (base_slug u (trim name)) 0 db)) [
        | inl n ↦ absurd (ground arith)
        | inr (slug, q) ↦
            let (k, same, free, before) =
              first_free-first t fuel (base_slug u (trim name)) 0 db slug q in
            with_owner_lem d owner name slug now db db' r free (ground arith)
      ]
