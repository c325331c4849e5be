-- ===== src/Http/Requests.antt =====
-- What a request brings, what the server is put together from, and the guards that stand before
-- the handlers of the controllers (`@UseGuards`), in the order in which a controller names them.
use gym_saas_be.Prelude.{Unicode, false, Option, none, some, List, [], ◌∷◌, Text, codes}
use gym_saas_be.Store.{Uuid, Time}
use gym_saas_be.Errors.{Result, ok, err, unauthorized}
use gym_saas_be.Entities.{Tables, Db, Transactions, Action}
use gym_saas_be.Users.UseCases.{platform_admin_guard}
use gym_saas_be.Permissions.Guard.{
  Request, RequirePermissionsOptions, active_org_guard, can_activate,
}
use gym_saas_be.Permissions.Ownership.{Registry}
use gym_saas_be.Sessions.{SessionTable}
use gym_saas_be.Sessions.Service.{Keys, SessionMetadata, TokenPayload}
use gym_saas_be.Storage.{FileStorage}
use gym_saas_be.Auth.{World, Verifiers, AuthenticatedPrincipal, validate_claims}
use gym_saas_be.Auth.Context.{AuthContext, use_context, resolve_request_id}
use gym_saas_be.Http.Cookies.{CookieConfig, SetCookie}

-- The cookies of a request, the id in its header and one that was drawn for it, the parameters of
-- its path, and what its session is described by.
pub record HttpRequest : Type 0 where
  pub access_token : Option Text
  pub refresh_token : Option Text
  pub active_org : Option Uuid
  pub request_id : Option Text
  pub random_id : Text
  pub param : Text → Option Uuid
  pub user_agent : Option Text
  pub ip : Option Text

-- What a handler returns, and the cookies that it sets on the response, in order.
pub record Reply (A : Type 0) : Type 0 where
  pub body : A
  pub cookies : List SetCookie

abbrev pub plain : {A : Type 0} → A → Reply A
plain a = record { body = a; cookies = [] }

-- `requestSessionMetadata`.
unfoldable pub request_session_metadata : HttpRequest → SessionMetadata
request_session_metadata request = record {
  user_agent = request.user_agent;
  ip_address = request.ip;
}

-- `RequirePermissions`, given one permission.
unfoldable pub require_permissions : Text → RequirePermissionsOptions
require_permissions code = record {
  permission = code ∷ [];
  organization_id = none;
  resource = none;
  resource_id = none;
  skip_ownership = false;
}

-- The parts that the application is put together from: the database and what comes from libraries
-- and the environment.
pub record Backend : Type 1 where
  pub tables : Tables
  pub sessions : SessionTable
  pub transactions : Transactions (Db tables)
  pub session_transactions : Transactions sessions.Store
  pub keys : Keys
  pub unicode : Unicode
  pub verifiers : Verifiers
  pub verify_access : Time → Text → Option TokenPayload
  pub storage : FileStorage
  pub print_id : Uuid → Text
  pub registry : Registry
  pub cookies : CookieConfig

abbrev pub and_then : {A B : Type 0} → Result A → (A → Result B) → Result B
and_then (ok a) f = f a
and_then (err e) f = err e

abbrev pub keep : {A B : Type 0} → A → Result B → Result A
keep a (ok b) = ok a
keep a (err e) = err e

module _ (b : Backend) where
  abbrev pub State : Type 0
  State = World b.tables b.sessions

  unfoldable pub context : Time → HttpRequest → State → AuthContext
  unfolding use_context
  context now request w =
      use_context b.tables (b.verify_access now)
        (resolve_request_id request.random_id request.request_id) request.access_token
        request.active_org w.db

  unfoldable pub cookie_extractor : HttpRequest → Option Text
  cookie_extractor request = request.access_token

  -- `JwtAuthGuard`: Passport verifies the extracted token and hands its claims to the strategy.
  unfoldable pub authenticate : Time → Option TokenPayload → State → Result AuthenticatedPrincipal
  unfolding validate_claims
  authenticate now none w = err (unauthorized (codes "Unauthorized"))
  authenticate now (some payload) w =
      validate_claims b.tables b.sessions b.session_transactions b.keys b.unicode b.verifiers now
        payload w

  abbrev pub verified : Time → Option Text → Option TokenPayload
  verified now none = none
  verified now (some token) = b.verify_access now token

  unfoldable pub jwt_auth_guard : Time → HttpRequest → State → Result AuthenticatedPrincipal
  unfolding authenticate cookie_extractor
  jwt_auth_guard now request w = authenticate now (verified now (cookie_extractor request)) w

  -- The request as the guards of common/guards read it, once its user is known.
  abbrev pub seen : HttpRequest → Option Uuid → AuthenticatedPrincipal → Request
  seen request path_id principal = record {
    user = some principal.user.id;
    path_id = path_id;
    param = request.param;
  }

  abbrev pub permission_guard :
      Option RequirePermissionsOptions
      → Time
      → HttpRequest
      → Option Uuid
      → State
      → AuthenticatedPrincipal
      → Result AuthenticatedPrincipal
  unfolding context can_activate
  permission_guard options now request path_id w principal = keep principal (
      can_activate b.tables options b.registry (seen request path_id principal)
        (context now request w).active_organization_id w.db)

  -- `@UseGuards(JwtAuthGuard, PermissionGuard)`.
  unfoldable pub account_guards :
      Option RequirePermissionsOptions
      → Time
      → HttpRequest
      → Option Uuid
      → State
      → Result AuthenticatedPrincipal
  unfolding jwt_auth_guard context can_activate
  account_guards options now request path_id w =
      and_then (jwt_auth_guard now request w) (permission_guard options now request path_id w)

  -- `@UseGuards(JwtAuthGuard, ActiveOrgGuard, PermissionGuard)`.
  unfoldable pub business_guards :
      Option RequirePermissionsOptions
      → Time
      → HttpRequest
      → Option Uuid
      → State
      → Result AuthenticatedPrincipal
  unfolding jwt_auth_guard context active_org_guard can_activate
  business_guards options now request path_id w =
      and_then (jwt_auth_guard now request w) λ principal.
        and_then (active_org_guard (context now request w).active_organization_id path_id)
          λ _. permission_guard options now request path_id w principal

  -- `@UseGuards(JwtAuthGuard, PlatformAdminGuard)`.
  unfoldable pub admin_guards : Time → HttpRequest → State → Result AuthenticatedPrincipal
  unfolding jwt_auth_guard platform_admin_guard
  admin_guards now request w =
      and_then (jwt_auth_guard now request w)
        λ principal. keep principal (platform_admin_guard b.tables (some principal.user.id) w.db)

  -- A handler behind guards: a request that they refuse is answered with their exception.
  abbrev pub guarded :
      {A : Type 0}
      → (State → Result AuthenticatedPrincipal)
      → (AuthenticatedPrincipal → Action State A)
      → Action State A
  guarded guard handler w = elim (guard w) [ err e ↦ (err e, w) | ok p ↦ handler p w ]
