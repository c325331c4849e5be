-- ===== src/Http/Views.antt =====
-- The bodies of responses: modules/organizations/interfaces/organization.view.ts and
-- modules/roles/interfaces/role.view.ts.
use gym_saas_be.Prelude.{ℕ, Option, Text}
use gym_saas_be.Store.{Uuid, Time}
use gym_saas_be.Entities.{Organization, Role}
use gym_saas_be.Permissions.{RoleSummary}
use gym_saas_be.Organizations.UseCases.{MyOrganization}

pub record OrganizationView : Type 0 where
  pub id : Uuid
  pub name : Text
  pub slug : Text
  pub created_at : Time
  pub trial_ends_at : Option Time
  pub primary_color : Option Text
  pub secondary_color : Option Text
  pub font_family : Option Text
  pub logo_url : Option Text
  pub banner_url : Option Text

pub record OrganizationWithRoleView : Type 0 where
  pub view : OrganizationView
  pub role : RoleSummary

unfoldable pub to_organization_view : Organization → OrganizationView
to_organization_view o = record {
  id = o.id;
  name = o.cols.name;
  slug = o.cols.slug;
  created_at = o.created_at;
  trial_ends_at = o.cols.trial_ends_at;
  primary_color = o.cols.primary_color;
  secondary_color = o.cols.secondary_color;
  font_family = o.cols.font_family;
  logo_url = o.cols.logo_url;
  banner_url = o.cols.banner_url;
}

-- The callback of `listMine`.
unfoldable pub with_role_view : MyOrganization → OrganizationWithRoleView
unfolding to_organization_view
with_role_view mine = record { view = to_organization_view mine.organization; role = mine.role }

pub record RoleView : Type 0 where
  pub id : Uuid
  pub key : Text
  pub name : Text
  pub description : Option Text
  pub hierarchy_level : ℕ
  pub created_at : Time

unfoldable pub to_role_view : Role → RoleView
to_role_view role = record {
  id = role.id;
  key = role.cols.key;
  name = role.cols.name;
  description = role.cols.description;
  hierarchy_level = role.cols.hierarchy_level;
  created_at = role.created_at;
}
