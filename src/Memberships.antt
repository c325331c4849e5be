-- ===== src/Memberships.antt =====
-- Memberships: modules/memberships (the repository over TypeORM, the use cases, and the adapter
-- that tells the request's context whether a user is an active member).
pub mod UseCases
pub mod Removal
mod Tests
pub mod RoleChange
pub mod Reassigned
pub mod Endings
pub mod Answered
pub mod Owners
use gym_saas_be.Prelude.{
  ℕ, Bool, true, false, ◌&&◌, ◌||◌, not, Option, none, some, List, [], ◌∷◌, Text, codes, text_eq,
  ltb, leb, ◌==◌, if◌then◌else◌,
}
use gym_saas_be.Store.{Uuid, Time}
use gym_saas_be.Errors.{domain, sole_owner}
use gym_saas_be.Entities.{Membership, Tables, Db, Action, saving, reads, throw_if, ◌>>=◌}
use gym_saas_be.Users.{UserPublicProfile}
use gym_saas_be.Permissions.{RoleSummary, is_membership_of}

pub record OrganizationMember : Type 0 where
  pub membership_id : Uuid
  pub role : RoleSummary
  pub user : UserPublicProfile

-- `ParseUUIDPipe` lets the target's id through in any spelling that the database reads as the id;
-- `===` compares spellings, and the caller's id is spelled as the database does.
pub record ChangeMemberRoleCommand : Type 0 where
  pub target_is_canonical : Bool
  pub caller_user_id : Uuid
  pub organization_id : Uuid
  pub target_user_id : Uuid
  pub role_id : Uuid

pub record RemoveMemberCommand : Type 0 where
  pub caller_user_id : Uuid
  pub organization_id : Uuid
  pub target_user_id : Uuid

abbrev pub owner_role_key : Text
owner_role_key = codes "owner"

-- The `where` clauses of the repository.
unfoldable pub is_of_user : Uuid → Membership → Bool
is_of_user user_id m = m.cols.user_id == user_id

unfoldable pub is_in_organization : Uuid → Membership → Bool
is_in_organization organization_id m = m.cols.organization_id == organization_id

unfoldable pub has_role_in : Uuid → Uuid → Membership → Bool
has_role_in organization_id role_id m =
    m.cols.organization_id == organization_id && m.cols.role_id == role_id

unfoldable pub has_role : Uuid → Membership → Bool
has_role role_id m = m.cols.role_id == role_id

unfoldable pub is_membership : Uuid → Membership → Bool
is_membership id m = m.id == id

module _ (t : Tables) where
  unfoldable pub find_by_user_and_org : Uuid → Uuid → Db t → Option Membership
  unfolding is_membership_of
  find_by_user_and_org user_id organization_id db =
      t.memberships.find_one (is_membership_of user_id organization_id) db.memberships

  unfoldable pub find_by_user : Uuid → Db t → List Membership
  unfolding is_of_user
  find_by_user user_id db = t.memberships.find (is_of_user user_id) db.memberships

  unfoldable pub find_by_org : Uuid → Db t → List Membership
  unfolding is_in_organization
  find_by_org organization_id db =
      t.memberships.find (is_in_organization organization_id) db.memberships

  unfoldable pub count_by_role_in_org : Uuid → Uuid → Db t → ℕ
  unfolding has_role_in
  count_by_role_in_org organization_id role_id db =
      t.memberships.count (has_role_in organization_id role_id) db.memberships

  unfoldable pub count_by_role : Uuid → Db t → ℕ
  unfolding has_role
  count_by_role role_id db = t.memberships.count (has_role role_id) db.memberships

  unfoldable pub save_membership : Membership → Action (Db t) Membership
  save_membership m =
      saving t.memberships (λ db. db.memberships) (λ ms db. record db { memberships = ms }) m

  unfoldable pub soft_delete_membership : Uuid → Time → Db t → Db t
  unfolding is_membership
  soft_delete_membership id now db = record db {
    memberships = t.memberships.soft_delete (is_membership id) now db.memberships;
  }

  -- `TypeOrmMembershipContextAdapter.isActiveMember`.
  unfoldable pub is_active_member : Uuid → Uuid → Db t → Bool
  unfolding is_membership_of
  is_active_member user_id organization_id db =
      ltb 0 (t.memberships.count (is_membership_of user_id organization_id) db.memberships)

  -- The check that both use cases make before an owner loses the role: the current role of the
  -- target, if the catalog still has it, and the number of members that hold it.
  unfoldable pub is_owner_summary : Option RoleSummary → Bool
  is_owner_summary none = false
  is_owner_summary (some role) = text_eq role.key owner_role_key

  unfoldable pub is_last_owner : Option RoleSummary → Uuid → Uuid → Db t → Bool
  unfolding is_owner_summary count_by_role_in_org
  is_last_owner role organization_id role_id db =
      is_owner_summary role && leb (count_by_role_in_org organization_id role_id db) 1
