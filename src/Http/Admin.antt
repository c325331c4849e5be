-- ===== src/Http/Admin.antt =====
-- modules/roles/interfaces: admin-roles.controller.ts and admin-permissions.controller.ts, which
-- only platform administrators reach, and modules/users/interfaces/users.controller.ts, where
-- users change their own profile.
use gym_saas_be.Prelude.{Option, List, map, Text}
use gym_saas_be.Store.{Uuid, Time}
use gym_saas_be.Entities.{Permission, Action, pure, reads, ◌>>=◌}
use gym_saas_be.Permissions.Repository.{list_active}
use gym_saas_be.Roles.{
  CreateRoleCommand, UpdateRoleCommand, list_all, create_role, update_role, delete_role,
  replace_role_permissions,
}
use gym_saas_be.Organizations.UseCases.{Field}
use gym_saas_be.Users.{UserPublicProfile, to_public_profile}
use gym_saas_be.Users.UseCases.{update_profile}
use gym_saas_be.Storage.{UploadCandidate, set_user_avatar}
use gym_saas_be.Auth.{on_db}
use gym_saas_be.Http.Views.{RoleView, to_role_view}
use gym_saas_be.Http.Requests.{Backend, HttpRequest, State, admin_guards, jwt_auth_guard, guarded}

pub record PermissionInfo : Type 0 where
  pub code : Text
  pub name : Text
  pub description : Text

abbrev pub info : Permission → PermissionInfo
info permission = record {
  code = permission.cols.code;
  name = permission.cols.name;
  description = permission.cols.description;
}

module _ (b : Backend) where
  unfoldable pub list_roles : Time → HttpRequest → Action (State b) (List RoleView)
  unfolding admin_guards list_all to_role_view
  list_roles now request =
      guarded b (admin_guards b now request)
        λ p. reads (λ w. map to_role_view (list_all b.tables w.db))

  unfoldable pub create : Time → HttpRequest → CreateRoleCommand → Action (State b) RoleView
  unfolding admin_guards create_role to_role_view
  create now request dto =
      guarded b (admin_guards b now request) λ p.
        on_db b.tables b.sessions (create_role b.tables dto) >>= λ role. pure (to_role_view role)

  unfoldable pub update : Time → HttpRequest → UpdateRoleCommand → Action (State b) RoleView
  unfolding admin_guards update_role to_role_view
  update now request dto =
      guarded b (admin_guards b now request) λ p.
        on_db b.tables b.sessions (update_role b.tables dto) >>= λ role. pure (to_role_view role)

  unfoldable pub remove : Time → HttpRequest → Uuid → Action (State b) (Unit {0})
  unfolding admin_guards delete_role
  remove now request role_id =
      guarded b (admin_guards b now request)
        λ p. on_db b.tables b.sessions (delete_role b.tables role_id now)

  unfoldable pub replace_permissions :
      Time → HttpRequest → Uuid → List Text → Action (State b) (Unit {0})
  unfolding admin_guards replace_role_permissions
  replace_permissions now request role_id permission_codes =
      guarded b (admin_guards b now request) λ p. on_db b.tables b.sessions (
        replace_role_permissions b.tables b.transactions
          (record { role_id = role_id; permission_codes = permission_codes }) now)

  unfoldable pub list_permissions : Time → HttpRequest → Action (State b) (List PermissionInfo)
  unfolding admin_guards list_active
  list_permissions now request =
      guarded b (admin_guards b now request) λ p. reads (λ w. map info (list_active b.tables w.db))

  unfoldable pub update_me : Time → HttpRequest → Field Text → Action (State b) UserPublicProfile
  unfolding jwt_auth_guard update_profile to_public_profile
  update_me now request name = guarded b (jwt_auth_guard b now request) λ p.
      on_db b.tables b.sessions (update_profile b.tables p.user.id name) >>= λ user.
      pure (to_public_profile user)

  unfoldable pub upload_avatar :
      Time
      → HttpRequest
      → Option UploadCandidate
      → (uuid : Text) → Action (State b) UserPublicProfile
  unfolding jwt_auth_guard set_user_avatar to_public_profile
  upload_avatar now request file uuid = guarded b (jwt_auth_guard b now request) λ p.
      on_db b.tables b.sessions (set_user_avatar b.tables b.storage p.user.id file uuid) >>= λ user.
      pure (to_public_profile user)
