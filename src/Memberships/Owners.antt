-- ===== src/Memberships/Owners.antt =====
-- The owners of organizations, and the removal of members.
use gym_saas_be.Prelude.{
  ◌≡◌, refl, ◌≢◌, inl, inr, true, false, none, some, arith, sym, ◌∙◌, subst, text_eq_iff,
}
use native.Mathlib.Decide.{ℕ_discrete}
use gym_saas_be.Store.{Uuid, Time}
use gym_saas_be.Store.Queries.{count-other, find_one-id}
use gym_saas_be.Entities.{Membership, Role, Tables, Db}
use gym_saas_be.Permissions.{is_role, is_membership_of}
use gym_saas_be.Permissions.Repository.{find_role_summary, role_summary}
use gym_saas_be.Memberships.{
  RemoveMemberCommand, find_by_user_and_org, is_last_owner, is_owner_summary,
  soft_delete_membership, owner_role_key, count_by_role_in_org, has_role_in,
}
use gym_saas_be.Memberships.UseCases.{remove_member}
use gym_saas_be.Memberships.Removal.{remove_member-cases, other_row, IsRemoved}

module _ (t : Tables) where
  -- A live member of the organization holds a live role with the key of owners.
  pub record HasOwner (db : Db t) (organization_id : Uuid) : Type 0 where
    pub member : Membership
    pub member_row : t.memberships.row db.memberships member.id ≡ some member
    pub member_live : member.deleted_at ≡ none
    pub of_organization : member.cols.organization_id ≡ organization_id
    pub role : Role
    pub role_row : t.roles.row db.roles member.cols.role_id ≡ some role
    pub role_live : role.deleted_at ≡ none
    pub role_key : role.cols.key ≡ owner_role_key

  pub owner_summary :
      (db : Db t) (o : Uuid) (h : HasOwner db o)
      → is_owner_summary t (find_role_summary t h.member.cols.role_id db) ≡ true
  unfolding find_role_summary is_owner_summary role_summary is_role
  owner_summary db o h =
      let i = h.member.cols.role_id in
      let at_id : h.role.id ≡ i = t.roles.row_id db.roles i h.role h.role_row in
      ground (
        arith,
        find_one-id t.roles (is_role i) db.roles i h.role h.role_row
            (h.role_live, ground (arith, at_id)) (λ a e. ground arith),
        text_eq_iff h.role.cols.key owner_role_key,
        h.role_key,
      )

  -- Where a member may lose the owners' role, another member holds it.
  pub another_owner :
      (db : Db t) (o : Uuid) (h : HasOwner db o)
      → is_last_owner t (find_role_summary t h.member.cols.role_id db) o h.member.cols.role_id db
        ≡ false
      → (m : Membership) × (m.id ≢ h.member.id)
        × (t.memberships.row db.memberships m.id ≡ some m)
        × (m.deleted_at ≡ none)
        × (m.cols.organization_id ≡ o)
        × (m.cols.role_id ≡ h.member.cols.role_id)
  unfolding is_last_owner count_by_role_in_org has_role_in
  another_owner db o h e =
      let i = h.member.cols.role_id in
      let (m, n, row, v) =
        count-other t.memberships (has_role_in o i) db.memberships h.member.id
          (ground (arith, owner_summary db o h)) in
      (m, n, row, v.0, ground (arith, v.1), ground (arith, v.1))

  owner-IsRemoved :
      (c : RemoveMemberCommand) (now : Time) (db db' : Db t) (o : Uuid)
      (r : IsRemoved t c now db db') (h : HasOwner db o)
      → h.member.id ≡ r.target.id
      → is_last_owner t (find_role_summary t h.member.cols.role_id db) o h.member.cols.role_id db
        ≡ false
  unfolding find_by_user_and_org is_membership_of
  owner-IsRemoved c now db db' o r h e =
      let (row, v) =
        t.memberships.find_one_some (is_membership_of c.target_user_id c.organization_id)
          db.memberships r.target r.found in
      let same : r.target ≡ h.member = ground (arith, row, h.member_row, e) in
      let here : o ≡ c.organization_id = ground (arith, v.1, h.of_organization, same) in
      rw here (
        subst
          (λ (m : Membership).
            is_last_owner t (find_role_summary t m.cols.role_id db) c.organization_id m.cols.role_id
              db
            ≡ false)
          same r.not_last)

  IsRemoved-HasOwner :
      (c : RemoveMemberCommand) (now : Time) (db db' : Db t) (o : Uuid)
      → IsRemoved t c now db db'
      → HasOwner db o
      → HasOwner db' o
  unfolding soft_delete_membership
  IsRemoved-HasOwner c now db db' o r h =
      subst (λ (x : Db t). HasOwner x o) (sym r.result)
        (elim (ℕ_discrete h.member.id r.target.id) [
          | no n ↦ record {
            member = h.member;
            member_row = other_row t r.target.id now db h.member.id n ∙ h.member_row;
            member_live = h.member_live;
            of_organization = h.of_organization;
            role = h.role;
            role_row = h.role_row;
            role_live = h.role_live;
            role_key = h.role_key;
          }
          | yes e ↦
              let (m, n, row, live, of_org, same_role) =
                another_owner db o h (owner-IsRemoved c now db db' o r h e) in
              record {
                member = m;
                member_row = other_row t r.target.id now db m.id (λ q. n (q ∙ sym e)) ∙ row;
                member_live = live;
                of_organization = of_org;
                role = h.role;
                role_row = rw same_role (h.role_row);
                role_live = h.role_live;
                role_key = h.role_key;
              }
        ])

  -- Removing a member, whether it succeeds or fails, leaves an owner to every organization that had
  -- one.
  pub remove_member-HasOwner :
      (c : RemoveMemberCommand) (now : Time) (db : Db t) (organization_id : Uuid)
      → HasOwner db organization_id
      → HasOwner (remove_member t c now db).1 organization_id
  remove_member-HasOwner c now db o h =
      elim (remove_member-cases t c now db (remove_member t c now db).1 (remove_member t c now db).0
        refl) [
          | inl (r, done) ↦ IsRemoved-HasOwner c now db _ o r h
          | inr (same, failed) ↦ subst (λ (x : Db t). HasOwner x o) (sym same) h
        ]
