-- ===== src/Memberships/Reassigned.antt =====
-- Changing a role, told by its effect on the rows, and the owners it leaves.
use gym_saas_be.Prelude.{
  true, ◌≡◌, refl, ◌≢◌, inl, inr, false, none, some, [], ◌∷◌, arith, Option-cases, sym, ◌∙◌, subst,
  text_eq_iff,
}
use native.Mathlib.Decide.{ℕ_discrete}
use gym_saas_be.Store.{Uuid}
use gym_saas_be.Entities.{Membership, Role, Tables, Db}
use gym_saas_be.Permissions.{RoleSummary, members_update_role, is_membership_of, is_role}
use gym_saas_be.Permissions.Repository.{find_role_summary, role_summary}
use gym_saas_be.Permissions.Granted.{IsPermitted, check_permission_iff}
use gym_saas_be.Memberships.{
  ChangeMemberRoleCommand, find_by_user_and_org, is_last_owner, owner_role_key,
}
use gym_saas_be.Memberships.Owners.{HasOwner, another_owner}
use gym_saas_be.Memberships.UseCases.{change_member_role}
use gym_saas_be.Memberships.RoleChange.{IsReassigned, IsAllowed, change_member_role-cases}

module _ (t : Tables) where
  -- The target's membership has the new role and is otherwise as before, and so are every other
  -- membership and every other table.
  pub record IsRoleChanged (c : ChangeMemberRoleCommand) (db db' : Db t) : Type 0 where
    pub permitted : IsPermitted t db c.caller_user_id c.organization_id (members_update_role ∷ [])
    pub not_self : c.target_is_canonical ≡ true → c.caller_user_id ≢ c.target_user_id
    pub role : Role
    pub role_row : t.roles.row db.roles c.role_id ≡ some role
    pub role_live : role.deleted_at ≡ none
    pub role_key : role.cols.key ≢ owner_role_key
    pub target : Membership
    pub target_found : find_by_user_and_org t c.target_user_id c.organization_id db ≡ some target
    pub saved : Membership
    pub saved_row : t.memberships.row db'.memberships target.id ≡ some saved
    pub saved_cols : saved.cols ≡ record (target.cols) { role_id = c.role_id }
    pub saved_live : saved.deleted_at ≡ none
    pub others :
        (i : Uuid)
        → i ≢ target.id
        → t.memberships.row db'.memberships i ≡ t.memberships.row db.memberships i
    pub rest : db' ≡ record db { memberships = db'.memberships }

  pub summary_row :
      (i : Uuid) (s : RoleSummary) (db : Db t)
      → find_role_summary t i db ≡ some s
      → (role : Role) × (t.roles.row db.roles i ≡ some role)
        × (role.deleted_at ≡ none)
        × (s ≡ role_summary role)
        × (role.id ≡ i)
  unfolding find_role_summary is_role
  summary_row i s db e = elim (Option-cases (t.roles.find_one (is_role i) db.roles)) [
    | inl n ↦ absurd (ground arith)
    | inr (role, q) ↦
        let (row, v) = t.roles.find_one_some (is_role i) db.roles role q in
        let at_id : role.id ≡ i = ground (arith, v.1) in
        (
          role,
          subst (λ (j : Uuid). t.roles.row db.roles j ≡ some role) at_id row,
          v.0,
          ground arith,
          at_id,
        )
  ]

  target_row :
      (c : ChangeMemberRoleCommand) (target : Membership) (db : Db t)
      → find_by_user_and_org t c.target_user_id c.organization_id db ≡ some target
      → (t.memberships.row db.memberships target.id ≡ some target)
        × (target.deleted_at ≡ none)
        × (target.cols.organization_id ≡ c.organization_id)
  unfolding find_by_user_and_org is_membership_of
  target_row c target db e =
      let (row, v) =
        t.memberships.find_one_some (is_membership_of c.target_user_id c.organization_id)
          db.memberships target e in
      (row, v.0, ground (arith, v.1))

  reassigned_others :
      (organization_id : Uuid) (role : RoleSummary) (target : Membership) (db db' : Db t)
      → t.memberships.row db.memberships target.id ≡ some target
      → (r : IsReassigned t organization_id role target db db')
      → (r.saved.id ≡ target.id)
        × ((i : Uuid)
            → i ≢ target.id
            → t.memberships.row db'.memberships i ≡ t.memberships.row db.memberships i)
        × (db'.roles ≡ db.roles)
  reassigned_others o role target db db' row_t r =
      let q = r.stored in
      let n : target.id ≢ 0 =
        λ z. ground (arith, t.memberships.row_zero db.memberships, row_t, z) in
      let same_id : r.saved.id ≡ target.id =
        t.memberships.save_id _ r.saved db.memberships r.memberships q n in
      (
        same_id,
        (λ i m.
            ground
              (arith, r.result, t.memberships.save_row _ r.saved db.memberships r.memberships i q)),
        ground (arith, r.result),
      )

  pub IsReassigned-IsRoleChanged :
      (c : ChangeMemberRoleCommand) (role : RoleSummary) (target : Membership) (db db' : Db t)
      → IsAllowed t c role target db
      → IsReassigned t c.organization_id role target db db'
      → IsRoleChanged c db db'
  unfolding role_summary
  IsReassigned-IsRoleChanged c role target db db' a r =
      let (full, row, live, is_it, at_id) = summary_row c.role_id role db a.role_found in
      let (row_t, live_t, org_t) = target_row c target db a.target_found in
      let q = r.stored in
      let (same_id, others, same_roles) =
        reassigned_others c.organization_id role target db db' row_t r in
      let same_role : role.id ≡ c.role_id = ground (arith, is_it, at_id) in
      record {
        permitted =
            (check_permission_iff t db c.caller_user_id c.organization_id
                (members_update_role ∷ [])).0
              a.permitted;
        not_self = a.not_self;
        role = full;
        role_row = row;
        role_live = live;
        role_key = λ z. ground (arith, a.not_owner, is_it, z, text_eq_iff role.key owner_role_key);
        target = target;
        target_found = a.target_found;
        saved = r.saved;
        saved_row = ground (
          arith,
          r.result,
          t.memberships.save_row _ r.saved db.memberships r.memberships target.id q,
        );
        saved_cols =
            t.memberships.save_cols _ r.saved db.memberships r.memberships q ∙ rw same_role refl;
        saved_live =
            t.memberships.save_deleted_at _ r.saved db.memberships r.memberships q ∙ live_t;
        others = others;
        rest = ground (arith, r.result);
      }

  owner_is_target :
      (c : ChangeMemberRoleCommand) (role : RoleSummary) (target : Membership) (db db' : Db t)
      (o : Uuid) (h : HasOwner t db o)
      → IsAllowed t c role target db
      → IsReassigned t c.organization_id role target db db'
      → h.member.id ≡ target.id
      → is_last_owner t (find_role_summary t h.member.cols.role_id db) o h.member.cols.role_id db
        ≡ false
  owner_is_target c role target db db' o h a r e =
      let (row, live, org) = target_row c target db a.target_found in
      let same : target ≡ h.member = ground (arith, row, h.member_row, e) in
      let here : o ≡ c.organization_id = ground (arith, org, h.of_organization, same) in
      rw here (
        subst
          (λ (m : Membership).
            is_last_owner t (find_role_summary t m.cols.role_id db) c.organization_id m.cols.role_id
              db
            ≡ false)
          same r.not_last)

  IsReassigned-HasOwner :
      (c : ChangeMemberRoleCommand) (role : RoleSummary) (target : Membership) (db db' : Db t)
      (o : Uuid)
      → IsAllowed t c role target db
      → IsReassigned t c.organization_id role target db db'
      → HasOwner t db o
      → HasOwner t db' o
  IsReassigned-HasOwner c role target db db' o a r h =
      let (row_t, live_t, org_t) = target_row c target db a.target_found in
      let (same_id, others, same_roles) =
        reassigned_others c.organization_id role target db db' row_t r in
      elim (ℕ_discrete h.member.id target.id) [
        | no n ↦ record {
          member = h.member;
          member_row = others h.member.id n ∙ h.member_row;
          member_live = h.member_live;
          of_organization = h.of_organization;
          role = h.role;
          role_row = ground (arith, same_roles, h.role_row);
          role_live = h.role_live;
          role_key = h.role_key;
        }
        | yes e ↦
            let (m, n, row, live, of_org, same_role) =
              another_owner t db o h (owner_is_target c role target db db' o h a r e) in
            record {
              member = m;
              member_row = others m.id (λ q. n (q ∙ sym e)) ∙ row;
              member_live = live;
              of_organization = of_org;
              role = h.role;
              role_row = ground (arith, same_roles, same_role, h.role_row);
              role_live = h.role_live;
              role_key = h.role_key;
            }
      ]

  -- Changing a role, whether the call succeeds or fails, leaves an owner to every organization that
  -- had one.
  pub change_member_role-HasOwner :
      (c : ChangeMemberRoleCommand) (db : Db t) (organization_id : Uuid)
      → HasOwner t db organization_id
      → HasOwner t (change_member_role t c db).1 organization_id
  change_member_role-HasOwner c db o h = elim (change_member_role-cases t c db) [
    | inl same ↦ subst (λ (x : Db t). HasOwner t x o) (sym same) h
    | inr (role, target, a, r) ↦ IsReassigned-HasOwner c role target db _ o a r h
  ]
