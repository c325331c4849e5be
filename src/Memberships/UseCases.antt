-- ===== src/Memberships/UseCases.antt =====
-- modules/memberships/application: changing a member's role, removing a member, listing members.
use gym_saas_be.Prelude.{◌&&◌, none, some, List, [], ◌∷◌, text_eq, ◌==◌, if◌then◌else◌}
use gym_saas_be.Store.{Uuid, Time}
use gym_saas_be.Errors.{
  domain, sole_owner, cannot_change_own_role, unknown_role, owner_role_not_assignable,
  membership_not_found,
}
use gym_saas_be.Entities.{
  Membership, Tables, Db, Action, pure, reads, throw_if, or_throw, ◌>>=◌, ◌>>◌,
}
use gym_saas_be.Users.{to_public_profile}
use gym_saas_be.Users.Repository.{find_by_id}
use gym_saas_be.Permissions.{RoleSummary, members_update_role, members_remove, members_read}
use gym_saas_be.Permissions.Repository.{find_role_summary}
use gym_saas_be.Permissions.Service.{require_permission}
use gym_saas_be.Memberships.{
  OrganizationMember, ChangeMemberRoleCommand, RemoveMemberCommand, owner_role_key,
  find_by_user_and_org, find_by_org, save_membership, soft_delete_membership, is_last_owner,
}

abbrev pub with_role : Uuid → Membership → Membership
with_role role_id m = record m { cols = record (m.cols) { role_id = role_id } }

module _ (t : Tables) where
  unfoldable pub to_member : Membership → RoleSummary → Action (Db t) OrganizationMember
  unfolding find_by_id to_public_profile
  to_member m role = reads (find_by_id t m.cols.user_id) >>= λ user.
      or_throw user (domain (membership_not_found m.cols.user_id none)) >>= λ u.
      pure (record { membership_id = m.id; role = role; user = to_public_profile u })

  -- From the point where the target and its new role differ.
  unfoldable pub reassign : Uuid → RoleSummary → Membership → Action (Db t) OrganizationMember
  unfolding find_role_summary is_last_owner save_membership to_member
  reassign organization_id role target =
      reads (find_role_summary t target.cols.role_id) >>= λ current_role.
      reads (is_last_owner t current_role organization_id target.cols.role_id) >>= λ last.
      throw_if last (domain sole_owner) >> save_membership t (with_role role.id target) >>= λ saved.
      to_member saved role

  unfoldable pub assign : Uuid → RoleSummary → Membership → Action (Db t) OrganizationMember
  unfolding reassign to_member
  assign organization_id role target =
      if target.cols.role_id == role.id
      then to_member target role
      else reassign organization_id role target

  unfoldable pub change_member_role : ChangeMemberRoleCommand → Action (Db t) OrganizationMember
  unfolding require_permission find_role_summary find_by_user_and_org assign
  change_member_role c =
      require_permission t c.caller_user_id c.organization_id (members_update_role ∷ [])
      >> throw_if (c.target_is_canonical && c.caller_user_id == c.target_user_id)
          (domain cannot_change_own_role)
      >> reads (find_role_summary t c.role_id)
      >>= λ found. or_throw found (domain (unknown_role c.role_id)) >>= λ role.
          throw_if (text_eq role.key owner_role_key) (domain owner_role_not_assignable)
          >> reads (find_by_user_and_org t c.target_user_id c.organization_id)
          >>= λ member.
              or_throw member
                (domain (membership_not_found c.target_user_id (some c.organization_id)))
              >>= assign c.organization_id role

  -- `RemoveMemberUseCase.execute` up to the write: the membership that the checks let go.
  unfoldable pub removal_target : RemoveMemberCommand → Action (Db t) Membership
  unfolding require_permission find_role_summary find_by_user_and_org is_last_owner
  removal_target c =
      require_permission t c.caller_user_id c.organization_id (members_remove ∷ [])
      >> reads (find_by_user_and_org t c.target_user_id c.organization_id)
      >>= λ member.
          or_throw member (domain (membership_not_found c.target_user_id (some c.organization_id)))
          >>= λ target. reads (find_role_summary t target.cols.role_id) >>= λ role.
              reads (is_last_owner t role c.organization_id target.cols.role_id) >>= λ last.
              throw_if last (domain sole_owner) >> pure target

  unfoldable pub remove_member : RemoveMemberCommand → Time → Action (Db t) (Unit {0})
  unfolding removal_target soft_delete_membership
  remove_member c now =
      removal_target c >>= λ target db. pure tt (soft_delete_membership t target.id now db)

  -- The loop over the memberships; one without a live user or role is left out.
  unfoldable pub members_of : List Membership → Db t → List OrganizationMember
  unfolding find_by_id find_role_summary to_public_profile
  members_of [] db = []
  members_of (m ∷ ms) db =
      let rest = members_of ms db in
      elim (find_by_id t m.cols.user_id db) [
        | none ↦ rest
        | some user ↦ elim (find_role_summary t m.cols.role_id db) [
          | none ↦ rest
          | some role ↦
              record { membership_id = m.id; role = role; user = to_public_profile user } ∷ rest
        ]
      ]

  unfoldable pub list_members : Uuid → Uuid → Action (Db t) (List OrganizationMember)
  unfolding require_permission find_by_org members_of
  list_members caller_user_id organization_id =
      require_permission t caller_user_id organization_id (members_read ∷ [])
      >> reads (λ db. members_of (find_by_org t organization_id db) db)
