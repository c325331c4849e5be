-- ===== src/Http/Organizations.antt =====
-- modules/organizations/interfaces: organizations.controller.ts and onboarding.controller.ts. Each
-- handler stands behind the guards of its class and the permission of its method.
use gym_saas_be.Prelude.{ℕ, none, some, List, [], ◌∷◌, map, Text, Option}
use gym_saas_be.Store.{Uuid, Time}
use gym_saas_be.Errors.{Result, ok, err}
use gym_saas_be.Entities.{Organization, Db, Action, pure, reads, ◌>>=◌}
use gym_saas_be.Permissions.{organization_read, organization_update, organization_delete}
use gym_saas_be.Organizations.{create_organization}
use gym_saas_be.Organizations.UseCases.{
  UpdateOrganizationCommand, OnboardingStatus, get_organization, delete_organization,
  update_organization, list_my_organizations, get_onboarding_status,
}
use gym_saas_be.Storage.{
  UploadCandidate, OrganizationImageTarget, logo, banner, set_organization_image,
}
use gym_saas_be.Auth.{AuthenticatedPrincipal, on_db}
use gym_saas_be.Http.Cookies.{set_active_org, clear_active_org}
use gym_saas_be.Http.Views.{
  OrganizationView, OrganizationWithRoleView, to_organization_view, with_role_view,
}
use gym_saas_be.Http.Requests.{
  Backend, HttpRequest, Reply, State, plain, context, require_permissions, account_guards,
  jwt_auth_guard, guarded,
}

module _ (b : Backend) where
  abbrev behind :
      {A : Type 0}
      → Option Text
      → Time
      → HttpRequest
      → Option Uuid
      → (AuthenticatedPrincipal → Action (State b) A)
      → Action (State b) A
  behind none now request path_id = guarded b (account_guards b none now request path_id)
  behind (some code) now request path_id =
      guarded b (account_guards b (some (require_permissions code)) now request path_id)

  abbrev shown : Organization → Reply OrganizationView
  shown o = plain (to_organization_view o)

  abbrev chosen : Organization → Reply OrganizationView
  chosen o = record {
    body = to_organization_view o;
    cookies = set_active_org b.cookies (b.print_id o.id) ∷ [];
  }

  unfoldable pub answer_created :
      State b
      → Option (Result Organization × Db b.tables)
      → Option (Result (Reply OrganizationView) × State b)
  unfolding set_active_org to_organization_view
  answer_created w none = none
  answer_created w (some (err e, db)) = some (err e, record w { db = db })
  answer_created w (some (ok o, db)) = some (ok (chosen o), record w { db = db })

  -- Out of fuel for the slug, `none`.
  unfoldable pub create :
      ℕ → Time → HttpRequest → Text → State b → Option (Result (Reply OrganizationView) × State b)
  unfolding account_guards create_organization answer_created
  create fuel now request name w = elim (account_guards b none now request none w) [
    | err e ↦ some (err e, w)
    | ok p ↦
        answer_created w
          (create_organization b.tables b.transactions b.unicode fuel p.user.id name now w.db)
  ]

  unfoldable pub list_mine :
      Time → HttpRequest → Action (State b) (Reply (List OrganizationWithRoleView))
  unfolding account_guards list_my_organizations with_role_view
  list_mine now request =
      behind none now request none
        λ p. reads (λ w. plain (map with_role_view (list_my_organizations b.tables p.user.id w.db)))

  unfoldable pub clear_active : Time → HttpRequest → Action (State b) (Reply (Unit {0}))
  unfolding account_guards clear_active_org
  clear_active now request =
      behind none now request none
        λ p. pure (record { body = tt; cookies = clear_active_org b.cookies ∷ [] })

  unfoldable pub get_by_id : Time → HttpRequest → Uuid → Action (State b) (Reply OrganizationView)
  unfolding account_guards require_permissions get_organization to_organization_view
  get_by_id now request id = behind (some organization_read) now request (some id) λ p.
      on_db b.tables b.sessions (get_organization b.tables p.user.id id) >>= λ o. pure (shown o)

  unfoldable pub update :
      Time
      → HttpRequest
      → Uuid
      → UpdateOrganizationCommand
      → Action (State b) (Reply OrganizationView)
  unfolding account_guards require_permissions update_organization to_organization_view
  update now request id patch = behind (some organization_update) now request (some id) λ p.
      on_db b.tables b.sessions (update_organization b.tables p.user.id id patch) >>= λ o.
      pure (shown o)

  abbrev upload :
      OrganizationImageTarget
      → Time
      → HttpRequest
      → Uuid
      → Option UploadCandidate
      → (uuid : Text) → Action (State b) (Reply OrganizationView)
  unfolding account_guards require_permissions set_organization_image to_organization_view
  upload target now request id file uuid =
      behind (some organization_update) now request (some id) λ p.
        on_db b.tables b.sessions
          (set_organization_image b.tables b.storage p.user.id id target file uuid)
        >>= λ o. pure (shown o)

  unfoldable pub upload_logo :
      Time
      → HttpRequest
      → Uuid
      → Option UploadCandidate
      → (uuid : Text) → Action (State b) (Reply OrganizationView)
  unfolding account_guards require_permissions set_organization_image to_organization_view
  upload_logo = upload logo

  unfoldable pub upload_banner :
      Time
      → HttpRequest
      → Uuid
      → Option UploadCandidate
      → (uuid : Text) → Action (State b) (Reply OrganizationView)
  unfolding account_guards require_permissions set_organization_image to_organization_view
  upload_banner = upload banner

  unfoldable pub remove : Time → HttpRequest → Uuid → Action (State b) (Reply (Unit {0}))
  unfolding account_guards require_permissions delete_organization
  remove now request id = behind (some organization_delete) now request (some id) λ p.
      on_db b.tables b.sessions (delete_organization b.tables p.user.id id now) >>= λ done.
      pure (plain tt)

  -- Selecting an organization reads it first, which only its members may.
  unfoldable pub select : Time → HttpRequest → Uuid → Action (State b) (Reply OrganizationView)
  unfolding account_guards get_organization set_active_org to_organization_view
  select now request id = behind none now request (some id) λ p.
      on_db b.tables b.sessions (get_organization b.tables p.user.id id) >>= λ o. pure (chosen o)

  -- `OnboardingController.status`, with the active organization of the request's context.
  unfoldable pub onboarding_status : Time → HttpRequest → Action (State b) (Reply OnboardingStatus)
  unfolding jwt_auth_guard get_onboarding_status context
  onboarding_status now request = guarded b (jwt_auth_guard b now request) λ p. reads (λ w. plain (
      get_onboarding_status b.tables p.user.id (context b now request w).active_organization_id
        w.db))
