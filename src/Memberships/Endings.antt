-- ===== src/Memberships/Endings.antt =====
-- The ways in which a call of ChangeMemberRoleUseCase can end: an answer, a refusal, or a user that is
-- missing.
use gym_saas_be.Prelude.{◌≡◌, ◌≢◌, ◌⊎◌, true, none, some, [], ◌∷◌}
use gym_saas_be.Errors.{
  Exception, Result, ok, err, domain, membership_not_found, permission_denied,
  cannot_change_own_role, unknown_role, owner_role_not_assignable, sole_owner, query_failed,
}
use gym_saas_be.Entities.{User, Membership, Role, Tables, Db}
use gym_saas_be.Users.Repository.{find_by_id}
use gym_saas_be.Users.{to_public_profile}
use gym_saas_be.Permissions.{members_update_role}
use gym_saas_be.Permissions.Repository.{find_role_summary}
use gym_saas_be.Permissions.Granted.{IsPermitted}
use gym_saas_be.Memberships.{
  ChangeMemberRoleCommand, OrganizationMember, find_by_user_and_org, is_last_owner, owner_role_key,
}
use gym_saas_be.Memberships.Reassigned.{IsRoleChanged}

module _ (t : Tables) where
  -- An answer: what it took, whom it is about, and what was written, nothing if the member already
  -- had the role.
  pub record IsAnswered (c : ChangeMemberRoleCommand) (db db' : Db t) (answer : OrganizationMember)
      : Type 0 where
    pub permitted : IsPermitted t db c.caller_user_id c.organization_id (members_update_role ∷ [])
    pub not_self : c.target_is_canonical ≡ true → c.caller_user_id ≢ c.target_user_id
    pub role : Role
    pub role_row : t.roles.row db.roles c.role_id ≡ some role
    pub role_live : role.deleted_at ≡ none
    pub role_key : role.cols.key ≢ owner_role_key
    pub target : Membership
    pub target_found : find_by_user_and_org t c.target_user_id c.organization_id db ≡ some target
    pub user : User
    pub user_found : find_by_id t c.target_user_id db ≡ some user
    pub of_member : answer.membership_id ≡ target.id
    pub of_user : answer.user ≡ to_public_profile user
    pub of_role : (answer.role.id ≡ c.role_id) × (answer.role.key ≡ role.cols.key)
    pub written : IsRoleChanged t c db db' ⊎ ((target.cols.role_id ≡ c.role_id) × (db' ≡ db))

  -- Why a call is refused, and with which exception.
  pub data Refusal (c : ChangeMemberRoleCommand) (db : Db t) (x : Exception) : Type 0 where
    not_permitted :
        x ≡ domain permission_denied
        → ¬ IsPermitted t db c.caller_user_id c.organization_id (members_update_role ∷ [])
        → Refusal c db x
    own_role :
        x ≡ domain cannot_change_own_role
        → c.caller_user_id ≡ c.target_user_id
        → c.target_is_canonical ≡ true
        → Refusal c db x
    no_role :
        x ≡ domain (unknown_role c.role_id)
        → find_role_summary t c.role_id db ≡ none
        → Refusal c db x
    owners_role :
        (role : Role)
        → x ≡ domain owner_role_not_assignable
        → t.roles.row db.roles c.role_id ≡ some role
        → role.cols.key ≡ owner_role_key
        → Refusal c db x
    no_member :
        x ≡ domain (membership_not_found c.target_user_id (some c.organization_id))
        → find_by_user_and_org t c.target_user_id c.organization_id db ≡ none
        → Refusal c db x
    last_owner :
        (target : Membership)
        → x ≡ domain sole_owner
        → find_by_user_and_org t c.target_user_id c.organization_id db ≡ some target
        → is_last_owner t
            (find_role_summary t target.cols.role_id db)
            c.organization_id
            target.cols.role_id
            db
          ≡ true
        → Refusal c db x
    not_stored :
        (target changed : Membership)
        → find_by_user_and_org t c.target_user_id c.organization_id db ≡ some target
        → changed ≡ record target { cols = record (target.cols) { role_id = c.role_id } }
        → x ≡ query_failed (t.memberships.save_error changed db.memberships)
        → t.memberships.save changed db.memberships ≡ none
        → Refusal c db x

  -- The member's user is not found, which is only seen after the write.
  abbrev pub UserMissing : ChangeMemberRoleCommand → Db t → Db t → Exception → Type 0
  UserMissing c db db' x =
      (x ≡ domain (membership_not_found c.target_user_id none))
      × (find_by_id t c.target_user_id db ≡ none)
      × (IsRoleChanged t c db db' ⊎ (db' ≡ db))

  abbrev pub AfterChange :
      ChangeMemberRoleCommand → Db t → Result OrganizationMember × Db t → Type 0
  AfterChange c db (ok answer, db') = IsAnswered c db db' answer
  AfterChange c db (err x, db') = (Refusal c db x × (db' ≡ db)) ⊎ UserMissing c db db' x
