-- ===== src/Memberships/RoleChange.antt =====
-- What changing a member's role does.
use gym_saas_be.Prelude.{
  ◌&&◌, ◌≡◌, refl, ◌≢◌, ◌⊎◌, inl, inr, true, false, none, some, [], ◌∷◌, arith, Option-cases,
  Bool-cases, ◌==◌, subst, text_eq,
}
use gym_saas_be.Store.{Uuid}
use gym_saas_be.Errors.{ok, err, domain, membership_not_found}
use gym_saas_be.Entities.{Membership, Tables, Db}
use gym_saas_be.Users.Repository.{find_by_id}
use gym_saas_be.Users.{to_public_profile}
use gym_saas_be.Permissions.{RoleSummary, members_update_role}
use gym_saas_be.Permissions.Repository.{find_role_summary}
use gym_saas_be.Permissions.Service.{check_permission, require_permission}
use gym_saas_be.Memberships.{
  ChangeMemberRoleCommand, OrganizationMember, find_by_user_and_org, is_last_owner, save_membership,
  owner_role_key,
}
use gym_saas_be.Memberships.UseCases.{change_member_role, assign, reassign, to_member, with_role}

module _ (t : Tables) where
  -- The membership is written with the new role.
  pub record IsReassigned (organization_id : Uuid) (role : RoleSummary) (target : Membership)
      (db db' : Db t) : Type 0 where
    pub not_last :
        is_last_owner t
          (find_role_summary t target.cols.role_id db)
          organization_id
          target.cols.role_id
          db
        ≡ false
    pub saved : Membership
    pub memberships : t.memberships.Store
    pub stored :
        t.memberships.save (with_role role.id target) db.memberships ≡ some (saved, memberships)
    pub result : db' ≡ record db { memberships = memberships }

  to_member-reads :
      (m : Membership) (role : RoleSummary) (db : Db t)
      → ((to_member t m role db).1 ≡ db)
        × ((to_member t m role db).0 ≡ err (domain (membership_not_found m.cols.user_id none))
            ⊎ ((p : OrganizationMember) × ((to_member t m role db).0 ≡ ok p)
                × (p.role ≡ role)
                × (p.membership_id ≡ m.id)))
  unfolding to_member
  to_member-reads m role db = elim (Option-cases (find_by_id t m.cols.user_id db)) [
    | inl n ↦ (ground arith, inl (ground arith))
    | inr (u, q) ↦ (
      ground arith,
      inr (
        record { membership_id = m.id; role = role; user = to_public_profile u },
        ground arith,
        refl,
        refl,
      ),
    )
  ]

  reassign-cases :
      (o : Uuid) (role : RoleSummary) (target : Membership) (db : Db t)
      → IsReassigned o role target db (reassign t o role target db).1
        ⊎ ((reassign t o role target db).1 ≡ db)
  unfolding reassign save_membership
  reassign-cases o role target db =
      let last =
        is_last_owner t (find_role_summary t target.cols.role_id db) o target.cols.role_id db in
      elim (Bool-cases last) [
        | inl l ↦ inr (ground arith)
        | inr l ↦
            elim (Option-cases (t.memberships.save (with_role role.id target) db.memberships)) [
              | inl n ↦ inr (ground arith)
              | inr ((saved, ms), q) ↦ inl (record {
                not_last = l;
                saved = saved;
                memberships = ms;
                stored = q;
                result =
                    ground (arith, (to_member-reads saved role (record db { memberships = ms })).0);
              })
            ]
      ]

  -- The command passes every check that comes before the membership is looked at.
  pub record IsAllowed (c : ChangeMemberRoleCommand) (role : RoleSummary) (target : Membership)
      (db : Db t) : Type 0 where
    pub permitted :
        check_permission t c.caller_user_id c.organization_id (members_update_role ∷ []) db ≡ true
    pub not_self : c.target_is_canonical ≡ true → c.caller_user_id ≢ c.target_user_id
    pub role_found : find_role_summary t c.role_id db ≡ some role
    pub not_owner : text_eq role.key owner_role_key ≡ false
    pub target_found : find_by_user_and_org t c.target_user_id c.organization_id db ≡ some target

  change_member_role-IsAllowed :
      (c : ChangeMemberRoleCommand) (db : Db t)
      → ((role : RoleSummary) × (target : Membership) × IsAllowed c role target db
          × (change_member_role t c db ≡ assign t c.organization_id role target db))
        ⊎ (((change_member_role t c db).1 ≡ db)
            × ((p : OrganizationMember) → (change_member_role t c db).0 ≢ ok p))
  unfolding change_member_role require_permission
  change_member_role-IsAllowed c db =
      elim (Bool-cases
        (check_permission t c.caller_user_id c.organization_id (members_update_role ∷ []) db)) [
          | inr denied ↦ inr (ground arith, λ p e. ground arith)
          | inl granted ↦
              elim (Bool-cases (c.target_is_canonical && c.caller_user_id == c.target_user_id)) [
                | inl self ↦ inr (ground arith, λ p e. ground arith)
                | inr other ↦ elim (Option-cases (find_role_summary t c.role_id db)) [
                  | inl n ↦ inr (ground arith, λ p e. ground arith)
                  | inr (role, q) ↦ elim (Bool-cases (text_eq role.key owner_role_key)) [
                    | inl is_owner ↦ inr (ground arith, λ p e. ground arith)
                    | inr not_owner ↦
                        elim (Option-cases
                          (find_by_user_and_org t c.target_user_id c.organization_id db)) [
                            | inl n ↦ inr (ground arith, λ p e. ground arith)
                            | inr (target, q2) ↦ inl (
                              role,
                              target,
                              record {
                                permitted = granted;
                                not_self = λ q e. ground (arith, q, e);
                                role_found = q;
                                not_owner = not_owner;
                                target_found = q2;
                              },
                              ground arith,
                            )
                          ]
                  ]
                ]
              ]
        ]

  -- A call changes nothing, or writes the target's membership with the role asked for.
  pub change_member_role-cases :
      (c : ChangeMemberRoleCommand) (db : Db t)
      → ((change_member_role t c db).1 ≡ db)
        ⊎ ((role : RoleSummary) × (target : Membership) × IsAllowed c role target db
            × IsReassigned c.organization_id role target db (change_member_role t c db).1)
  unfolding assign
  change_member_role-cases c db = elim (change_member_role-IsAllowed c db) [
    | inr (same, failed) ↦ inl same
    | inl (role, target, a, e) ↦ elim (Bool-cases (target.cols.role_id == role.id)) [
      | inl same ↦ inl (ground (arith, e, (to_member-reads target role db).0))
      | inr other ↦ elim (reassign-cases c.organization_id role target db) [
        | inr same ↦ inl (ground (arith, e))
        | inl r ↦ inr (
          role,
          target,
          a,
          subst (λ (x : Db t). IsReassigned c.organization_id role target db x) (ground (arith, e))
              r,
        )
      ]
    ]
  ]
