-- ===== src/Memberships/Answered.antt =====
-- memberships/application/change-member-role.use-case.ts: every way in which a call can end.
use gym_saas_be.Prelude.{
  ◌&&◌, ◌≡◌, refl, ◌≢◌, ◌⊎◌, inl, inr, none, some, [], ◌∷◌, arith, Option-cases, Bool-cases, ◌==◌,
  subst, sym, text_eq, text_eq_iff, ==_iff,
}
use gym_saas_be.Errors.{
  ok, err, domain, membership_not_found, permission_denied, cannot_change_own_role, unknown_role,
  owner_role_not_assignable, sole_owner, query_failed,
}
use gym_saas_be.Entities.{Membership, Tables, Db}
use gym_saas_be.Users.Repository.{find_by_id}
use gym_saas_be.Users.{to_public_profile}
use gym_saas_be.Permissions.{RoleSummary, members_update_role, is_membership_of}
use gym_saas_be.Permissions.Repository.{find_role_summary, role_summary}
use gym_saas_be.Permissions.Service.{check_permission, require_permission}
use gym_saas_be.Permissions.Granted.{check_permission_iff}
use gym_saas_be.Memberships.{
  ChangeMemberRoleCommand, OrganizationMember, find_by_user_and_org, is_last_owner, save_membership,
  owner_role_key,
}
use gym_saas_be.Memberships.UseCases.{change_member_role, assign, reassign, to_member, with_role}
use gym_saas_be.Memberships.RoleChange.{IsAllowed}
use gym_saas_be.Memberships.Reassigned.{IsRoleChanged, IsReassigned-IsRoleChanged, summary_row}
use gym_saas_be.Memberships.Endings.{
  AfterChange, not_permitted, own_role, no_role, owners_role, no_member, last_owner, not_stored,
}

module _ (t : Tables) where
  to_member_lem :
      (c : ChangeMemberRoleCommand) (role : RoleSummary) (target m : Membership) (db db' : Db t)
      → IsAllowed t c role target db
      → m.id ≡ target.id
      → m.cols.user_id ≡ c.target_user_id
      → db'.users ≡ db.users
      → IsRoleChanged t c db db' ⊎ ((target.cols.role_id ≡ role.id) × (db' ≡ db))
      → AfterChange t c db (to_member t m role db')
  unfolding to_member find_by_id role_summary
  to_member_lem c role target m db db' a same_id same_user users written =
      let call = to_member t m role db' in
      let (full, row, live, is_it, at_id) = summary_row t c.role_id role db a.role_found in
      elim (Option-cases (find_by_id t m.cols.user_id db')) [
        | inl n ↦
            let after : call ≡ (err (domain (membership_not_found m.cols.user_id none)), db') =
              ground arith in
            subst (AfterChange t c db) (sym after) (
              inr (
                rw same_user refl,
                ground arith,
                elim written [ inl w ↦ inl w | inr (same, e) ↦ inr e ],
              ))
        | inr (user, q) ↦
            let answer : OrganizationMember = record {
              membership_id = m.id;
              role = role;
              user = to_public_profile user;
            } in
            let after : call ≡ (ok answer, db') = ground arith in
            subst (AfterChange t c db) (sym after) (record {
              permitted =
                  (check_permission_iff t db c.caller_user_id c.organization_id
                      (members_update_role ∷ [])).0
                    a.permitted;
              not_self = a.not_self;
              role = full;
              role_row = row;
              role_live = live;
              role_key =
                  λ z. ground (arith, a.not_owner, is_it, z, text_eq_iff role.key owner_role_key);
              target = target;
              target_found = a.target_found;
              user = user;
              user_found = ground arith;
              of_member = same_id;
              of_user = refl;
              of_role = ground (arith, is_it, at_id);
              written = elim written [
                | inl w ↦ inl w
                | inr (same, e) ↦ inr (ground (arith, is_it, at_id), e)
              ];
            })
      ]

  target_user :
      (c : ChangeMemberRoleCommand) (target : Membership) (db : Db t)
      → find_by_user_and_org t c.target_user_id c.organization_id db ≡ some target
      → (target.cols.user_id ≡ c.target_user_id) × (target.id ≢ 0)
  unfolding find_by_user_and_org is_membership_of
  target_user c target db e =
      let (row, v) =
        t.memberships.find_one_some (is_membership_of c.target_user_id c.organization_id)
          db.memberships target e in
      (ground (arith, v.1), λ z. ground (arith, t.memberships.row_zero db.memberships, row, z))

  reassign_lem :
      (c : ChangeMemberRoleCommand) (role : RoleSummary) (target : Membership) (db : Db t)
      → IsAllowed t c role target db
      → AfterChange t c db (reassign t c.organization_id role target db)
  unfolding reassign save_membership role_summary
  reassign_lem c role target db a =
      let call = reassign t c.organization_id role target db in
      let last =
        is_last_owner t (find_role_summary t target.cols.role_id db) c.organization_id
          target.cols.role_id db in
      let changed = with_role role.id target in
      let (full, row, live, is_it, at_id) = summary_row t c.role_id role db a.role_found in
      let role_id : role.id ≡ c.role_id = ground (arith, is_it, at_id) in
      let same_role : changed
          ≡ record target { cols = record (target.cols) { role_id = c.role_id } } =
        rw role_id refl in
      elim (Bool-cases last) [
        | inl l ↦
            let after : call ≡ (err (domain sole_owner), db) = ground arith in
            subst (AfterChange t c db) (sym after)
              (inl (last_owner target refl a.target_found l, refl))
        | inr l ↦ elim (Option-cases (t.memberships.save changed db.memberships)) [
          | inl n ↦
              let after : call
                  ≡ (err (query_failed (t.memberships.save_error changed db.memberships)), db) =
                ground arith in
              subst (AfterChange t c db) (sym after)
                (inl (not_stored target changed a.target_found same_role refl n, refl))
          | inr ((saved, ms), q) ↦
              let db1 : Db t = record db { memberships = ms } in
              let after : call ≡ to_member t saved role db1 = ground arith in
              let (user, nonzero) = target_user c target db a.target_found in
              let written : IsRoleChanged t c db db1 =
                IsReassigned-IsRoleChanged t c role target db db1 a (record {
                  not_last = l;
                  saved = saved;
                  memberships = ms;
                  stored = q;
                  result = refl;
                }) in
              let cols = t.memberships.save_cols changed saved db.memberships ms q in
              subst (AfterChange t c db) (sym after) (
                to_member_lem c role target saved db db1 a
                  (t.memberships.save_id changed saved db.memberships ms q nonzero)
                  (ground (arith, cols, user)) refl (inl written))
        ]
      ]

  assign_lem :
      (c : ChangeMemberRoleCommand) (role : RoleSummary) (target : Membership) (db : Db t)
      → IsAllowed t c role target db
      → AfterChange t c db (assign t c.organization_id role target db)
  unfolding assign
  assign_lem c role target db a =
      let call = assign t c.organization_id role target db in
      elim (Bool-cases (target.cols.role_id == role.id)) [
        | inr other ↦
            let after : call ≡ reassign t c.organization_id role target db = ground arith in
            subst (AfterChange t c db) (sym after) (reassign_lem c role target db a)
        | inl same ↦
            let after : call ≡ to_member t target role db = ground arith in
            subst (AfterChange t c db) (sym after) (
              to_member_lem c role target target db db a refl
                (target_user c target db a.target_found).0 refl (inr ((==_iff _ _).0 same, refl)))
      ]

  -- A call to change a member's role answers with the member's membership, user and new role only
  -- if the caller is permitted to change roles in the organization, the caller is not the target or
  -- the target's id is spelled otherwise than the database does, the role is live and not the
  -- owners', and the target is a member; then the membership has that role, and every other row of
  -- the database is as it was. A call that is refused, for a reason that holds of the database and
  -- with the exception of that reason, changes nothing. If the member's user is not found, the call
  -- fails, and the role may be changed all the same.
  pub change_member_role_lem :
      (c : ChangeMemberRoleCommand) (db : Db t) → AfterChange t c db (change_member_role t c db)
  unfolding change_member_role require_permission role_summary
  change_member_role_lem c db =
      let call = change_member_role t c db in
      let end = AfterChange t c db in
      let granted =
        check_permission t c.caller_user_id c.organization_id (members_update_role ∷ []) db in
      let iff =
        check_permission_iff t db c.caller_user_id c.organization_id (members_update_role ∷ []) in
      elim (Bool-cases granted) [
        | inr denied ↦
            let after : call ≡ (err (domain permission_denied), db) = ground arith in
            subst end (sym after) (inl (not_permitted refl (λ p. ground (arith, iff.1 p)), refl))
        | inl allowed ↦
            elim (Bool-cases (c.target_is_canonical && c.caller_user_id == c.target_user_id)) [
              | inl self ↦
                  let after : call ≡ (err (domain cannot_change_own_role), db) = ground arith in
                  subst end (sym after) (inl (own_role refl (ground arith) (ground arith), refl))
              | inr other ↦ elim (Option-cases (find_role_summary t c.role_id db)) [
                | inl n ↦
                    let after : call ≡ (err (domain (unknown_role c.role_id)), db) = ground arith in
                    subst end (sym after) (inl (no_role refl n, refl))
                | inr (role, q) ↦ elim (Bool-cases (text_eq role.key owner_role_key)) [
                  | inl is_owner ↦
                      let after : call ≡ (err (domain owner_role_not_assignable), db) =
                        ground arith in
                      let (full, row, live, is_it, at_id) = summary_row t c.role_id role db q in
                      subst end (sym after) (
                        inl (
                          owners_role full refl row (
                              ground
                                (arith, is_it, (text_eq_iff role.key owner_role_key).0 is_owner)),
                          refl,
                        ))
                  | inr not_owner ↦
                      elim (Option-cases
                        (find_by_user_and_org t c.target_user_id c.organization_id db)) [
                          | inl n ↦
                              let after : call ≡ (
                                err (
                                    domain (
                                      membership_not_found c.target_user_id
                                        (some c.organization_id))),
                                db,
                              ) =
                                ground arith in
                              subst end (sym after) (inl (no_member refl n, refl))
                          | inr (target, q2) ↦
                              let after : call ≡ assign t c.organization_id role target db =
                                ground arith in
                              subst end (sym after) (
                                assign_lem c role target db (record {
                                  permitted = allowed;
                                  not_self = λ q e. ground (arith, q, e);
                                  role_found = q;
                                  not_owner = not_owner;
                                  target_found = q2;
                                }))
                        ]
                ]
              ]
            ]
      ]
