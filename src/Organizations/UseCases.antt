-- ===== src/Organizations/UseCases.antt =====
-- modules/organizations/application: reading, changing, deleting and listing organizations.
use gym_saas_be.Prelude.{
  ℕ, Bool, Option, none, some, List, [], ◌∷◌, Text, length, ◌==◌, is_some, trim,
}
use gym_saas_be.Store.{Uuid, Time}
use gym_saas_be.Errors.{domain, organization_not_found, type_error}
use gym_saas_be.Entities.{
  Organization, Membership, Tables, Db, Action, pure, throw, reads, or_throw, ◌>>=◌, ◌>>◌,
}
use gym_saas_be.Permissions.{
  RoleSummary, organization_read, organization_update, organization_delete,
}
use gym_saas_be.Permissions.Repository.{find_role_summary}
use gym_saas_be.Permissions.Service.{require_permission}
use gym_saas_be.Memberships.{find_by_user}
use gym_saas_be.Organizations.{find_by_id, save_organization, soft_delete_organization}

-- A field of a request body: left out, `null`, or a value.
pub data Field (A : Type 0) : Type 0 where
  missing : Field A
  null : Field A
  given : A → Field A

pub record UpdateOrganizationCommand : Type 0 where
  pub name : Field Text
  pub primary_color : Field Text
  pub secondary_color : Field Text
  pub font_family : Field Text

-- The new value of a column that may be NULL.
abbrev pub patch_column : {A : Type 0} → Field A → Option A → Option A
patch_column missing old = old
patch_column null old = none
patch_column (given a) old = some a

-- `patch.name.trim()` throws on `null`.
unfoldable pub patch_name : {S : Type 0} → Field Text → Text → Action S Text
unfolding trim
patch_name missing old = pure old
patch_name null old = throw type_error
patch_name (given name) old = pure (trim name)

abbrev pub patch_columns : UpdateOrganizationCommand → Text → Organization → Organization
patch_columns patch name o = record o {
  cols = record (o.cols) {
    name = name;
    primary_color = patch_column patch.primary_color o.cols.primary_color;
    secondary_color = patch_column patch.secondary_color o.cols.secondary_color;
    font_family = patch_column patch.font_family o.cols.font_family;
  };
}

pub record MyOrganization : Type 0 where
  pub organization : Organization
  pub role : RoleSummary

pub record OnboardingStatus : Type 0 where
  pub needs_onboarding : Bool
  pub organizations_count : ℕ
  pub has_active_organization : Bool
  pub active_organization_id : Option Uuid

module _ (t : Tables) where
  unfoldable pub get_organization : Uuid → Uuid → Action (Db t) Organization
  unfolding require_permission find_by_id
  get_organization caller_user_id organization_id =
      require_permission t caller_user_id organization_id (organization_read ∷ [])
      >> reads (find_by_id t organization_id)
      >>= λ found. or_throw found (domain (organization_not_found organization_id))

  unfoldable pub delete_organization : Uuid → Uuid → Time → Action (Db t) (Unit {0})
  unfolding require_permission find_by_id soft_delete_organization
  delete_organization caller_user_id organization_id now =
      require_permission t caller_user_id organization_id (organization_delete ∷ [])
      >> reads (find_by_id t organization_id)
      >>= λ found. or_throw found (domain (organization_not_found organization_id)) >> λ db.
          pure tt (soft_delete_organization t organization_id now db)

  unfoldable pub update_organization :
      Uuid → Uuid → UpdateOrganizationCommand → Action (Db t) Organization
  unfolding require_permission find_by_id save_organization patch_name
  update_organization caller_user_id organization_id patch =
      require_permission t caller_user_id organization_id (organization_update ∷ [])
      >> reads (find_by_id t organization_id)
      >>= λ found.
          or_throw found (domain (organization_not_found organization_id)) >>= λ organization.
          patch_name patch.name organization.cols.name >>= λ name.
          save_organization t (patch_columns patch name organization)

  -- The loop over the memberships; one whose organization or role is not live is left out.
  unfoldable pub organizations_of : List Membership → Db t → List MyOrganization
  unfolding find_by_id find_role_summary
  organizations_of [] db = []
  organizations_of (m ∷ ms) db =
      let rest = organizations_of ms db in
      elim (find_by_id t m.cols.organization_id db) [
        | none ↦ rest
        | some organization ↦ elim (find_role_summary t m.cols.role_id db) [
          | none ↦ rest
          | some role ↦ record { organization = organization; role = role } ∷ rest
        ]
      ]

  unfoldable pub list_my_organizations : Uuid → Db t → List MyOrganization
  unfolding find_by_user organizations_of
  list_my_organizations caller_user_id db = organizations_of (find_by_user t caller_user_id db) db

  unfoldable pub get_onboarding_status : Uuid → Option Uuid → Db t → OnboardingStatus
  unfolding list_my_organizations
  get_onboarding_status caller_user_id active db =
      let count = length (list_my_organizations caller_user_id db) in
      record {
        needs_onboarding = count == 0;
        organizations_count = count;
        has_active_organization = is_some active;
        active_organization_id = active;
      }
