-- ===== src/Permissions/Granted.antt =====
-- What the permission service grants, in terms of the rows.
use gym_saas_be.Prelude.{
  ◌≡◌, ◌↔◌, inl, inr, true, none, some, List, Text, text_eq, text_eq_iff, arith, any-map, any-elim,
  any-intro, Option-cases, subst,
}
use mathlib.Core.List.{Memᴰ}
use gym_saas_be.Store.{Uuid}
use gym_saas_be.Store.Queries.{find_one_unique, find_one-id, any-find, find-any}
use gym_saas_be.Entities.{Tables, Db, Membership, Role, RolePermission}
use gym_saas_be.Permissions.{MembershipRoleInfo, has_code, is_membership_of, is_role, is_grant_of}
use gym_saas_be.Permissions.Repository.{find_membership_role, find_permission_codes, role_info}
use gym_saas_be.Permissions.Service.{check_permission}

module _ (t : Tables) where
  -- The user is a live member of the organization, with a live role of the catalog.
  pub record HasRole (db : Db t) (user_id organization_id : Uuid) (role : Role) : Type 0 where
    pub member : Membership
    pub member_row : t.memberships.row db.memberships member.id ≡ some member
    pub member_live : member.deleted_at ≡ none
    pub of_user : member.cols.user_id ≡ user_id
    pub of_organization : member.cols.organization_id ≡ organization_id
    pub role_row : t.roles.row db.roles member.cols.role_id ≡ some role
    pub role_live : role.deleted_at ≡ none

  -- The catalog grants the role this code.
  pub record Grants (db : Db t) (role_id : Uuid) (code : Text) : Type 0 where
    pub grant : RolePermission
    pub grant_row : t.role_permissions.row db.role_permissions grant.id ≡ some grant
    pub grant_live : grant.deleted_at ≡ none
    pub of_role : grant.cols.role_id ≡ role_id
    pub of_code : grant.cols.permission_code ≡ code

  pub membership_role_found :
      (db : Db t) (u o : Uuid) (role : Role)
      → HasRole db u o role
      → find_membership_role t u o db ≡ some (role_info role)
  unfolding find_membership_role is_membership_of is_role
  membership_role_found db u o role h =
      let m = h.member in
      let at_id : role.id ≡ m.cols.role_id =
        t.roles.row_id db.roles m.cols.role_id role h.role_row in
      ground (
        arith,
        find_one_unique t.memberships (is_membership_of u o) db.memberships m.id m h.member_row
            (h.member_live, ground (arith, h.of_user, h.of_organization))
            (λ a va. (ground (arith, va.1, h.of_user, h.of_organization), va.0, h.member_live)),
        find_one-id t.roles (is_role m.cols.role_id) db.roles m.cols.role_id role h.role_row
            (h.role_live, ground (arith, at_id)) (λ a e. ground arith),
      )

  pub membership_role_sound :
      (db : Db t) (u o : Uuid) (info : MembershipRoleInfo)
      → find_membership_role t u o db ≡ some info
      → (role : Role) × HasRole db u o role × (info ≡ role_info role)
  unfolding find_membership_role is_membership_of is_role
  membership_role_sound db u o info e =
      elim (Option-cases (t.memberships.find_one (is_membership_of u o) db.memberships)) [
        | inl n ↦ absurd (ground arith)
        | inr (m, q) ↦ elim (Option-cases (t.roles.find_one (is_role m.cols.role_id) db.roles)) [
          | inl n ↦ absurd (ground arith)
          | inr (role, q2) ↦
              let (row, v) =
                t.memberships.find_one_some (is_membership_of u o) db.memberships m q in
              let (row2, v2) = t.roles.find_one_some (is_role m.cols.role_id) db.roles role q2 in
              let at_id : role.id ≡ m.cols.role_id = ground (arith, v2.1) in
              (
                role,
                record {
                  member = m;
                  member_row = row;
                  member_live = v.0;
                  of_user = ground (arith, v.1);
                  of_organization = ground (arith, v.1);
                  role_row = subst (λ (i : Uuid). t.roles.row db.roles i ≡ some role) at_id row2;
                  role_live = v2.0;
                },
                ground arith,
              )
        ]
      ]

  -- The codes found for a role are the ones that the catalog grants it.
  pub codes_iff :
      (db : Db t) (role_id : Uuid) (code : Text)
      → (has_code (find_permission_codes t role_id db) code ≡ true) ↔ Grants db role_id code
  unfolding find_permission_codes is_grant_of
  codes_iff db role_id code = (
    (λ h.
        let q = λ (g : RolePermission). text_eq g.cols.permission_code code in
        let (g, row, v, e) =
          any-find t.role_permissions (is_grant_of role_id) q db.role_permissions (
            rw
              (← any-map (λ (g : RolePermission). g.cols.permission_code)
                (t.role_permissions.find (is_grant_of role_id) db.role_permissions)
                (λ c. text_eq c code))
              h) in
        record {
          grant = g;
          grant_row = row;
          grant_live = v.0;
          of_role = ground (arith, v.1);
          of_code = (text_eq_iff _ _).0 e;
        }),
    (λ g.
        rw
          (any-map (λ (g : RolePermission). g.cols.permission_code)
            (t.role_permissions.find (is_grant_of role_id) db.role_permissions)
            (λ c. text_eq c code))
          (find-any t.role_permissions (is_grant_of role_id)
            (λ g. text_eq g.cols.permission_code code) db.role_permissions g.grant.id g.grant
            g.grant_row (g.grant_live, ground (arith, g.of_role)) ((text_eq_iff _ _).1 g.of_code))),
  )

  -- The user may do one of these things in the organization.
  abbrev pub IsPermitted : Db t → Uuid → Uuid → List Text → Type 0
  IsPermitted db user_id organization_id permissions =
      (role : Role) × HasRole db user_id organization_id role
      × (code : Text) × Memᴰ code permissions
      × Grants db role.id code

  -- `checkPermission` answers true exactly for a live member whose live role is granted at least
  -- one of the codes.
  pub check_permission_iff :
      (db : Db t) (user_id organization_id : Uuid) (permissions : List Text)
      → (check_permission t user_id organization_id permissions db ≡ true)
        ↔ IsPermitted db user_id organization_id permissions
  unfolding check_permission role_info
  check_permission_iff db u o permissions = (
    (λ h. elim (Option-cases (find_membership_role t u o db)) [
      | inl n ↦ absurd (ground arith)
      | inr (info, e) ↦
          let (role, has, same) = membership_role_sound db u o info e in
          let (code, m, c) =
            any-elim permissions (has_code (find_permission_codes t role.id db)) (ground arith) in
          (role, has, code, m, (codes_iff db role.id code).0 c)
    ]),
    (λ (role, has, code, m, g). ground (
      arith,
      membership_role_found db u o role has,
      any-intro permissions (has_code (find_permission_codes t role.id db)) m
          ((codes_iff db role.id code).1 g),
    )),
  )
