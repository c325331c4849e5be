-- ===== src/Http/Auth.antt =====
-- modules/auth/interfaces: auth.controller.ts, with google.strategy.ts, which turns a profile of
-- Passport into the one that the use case takes. The guard that limits the rate of requests is a
-- library's and stands before these handlers.
use gym_saas_be.Prelude.{
  ℕ, Option, none, some, List, [], ◌∷◌, ◌++◌, Text, codes, ◌==◌, if◌then◌else◌,
}
use gym_saas_be.Store.{Uuid, Time}
use gym_saas_be.Errors.{Result, ok, err, plain_error, unauthorized}
use gym_saas_be.Entities.{Action, pure, throw, ◌>>=◌}
use gym_saas_be.Users.{UserPublicProfile}
use gym_saas_be.Sessions.Service.{SessionMetadata}
use gym_saas_be.Auth.{AuthResult, GoogleProfile, login, refresh, logout}
use gym_saas_be.Auth.SignUp.{register, google_auth}
use gym_saas_be.Http.Cookies.{SetCookie, set_session_cookies, clear_session_cookies, set_active_org}
use gym_saas_be.Http.Requests.{
  Backend, HttpRequest, Reply, State, request_session_metadata, jwt_auth_guard, guarded,
}

-- The bodies of the requests, beyond what the server adds.
pub record LoginDto : Type 0 where
  pub email : Text
  pub password : Text

pub record RegisterDto : Type 0 where
  pub email : Text
  pub password : Text
  pub name : Text
  pub organization_name : Text

-- A profile of Passport: `emails` may be left out.
pub record Profile : Type 0 where
  pub id : Text
  pub emails : Option (List Text)
  pub display_name : Text

unfoldable pub first_email : Option (List Text) → Text
first_email none = []
first_email (some []) = []
first_email (some (email ∷ rest)) = email

abbrev pub or_text : Text → Text → Text
or_text [] other = other
or_text (c ∷ s) other = c ∷ s

unfoldable pub profile_of : Profile → Text → Result GoogleProfile
profile_of profile [] = err (plain_error (codes "Google profile has no email"))
profile_of profile (c ∷ s) =
    ok (record {
      google_id = profile.id;
      email = c ∷ s;
      name = or_text profile.display_name (c ∷ s);
    })

-- `GoogleStrategy.validate`; an empty address counts as none.
unfoldable pub validate : Profile → Result GoogleProfile
unfolding first_email profile_of
validate profile = profile_of profile (first_email profile.emails)

module _ (b : Backend) where
  abbrev pub active_cookie : Option Uuid → List SetCookie
  unfolding set_active_org
  active_cookie none = []
  active_cookie (some id) = if id == 0 then [] else set_active_org b.cookies (b.print_id id) ∷ []

  unfoldable pub complete_auth : AuthResult → Reply UserPublicProfile
  unfolding set_session_cookies active_cookie
  complete_auth result = record {
    body = result.user;
    cookies =
        set_session_cookies b.cookies result.tokens ++ active_cookie result.active_organization_id;
  }

  unfoldable pub complete_registration :
      Option (Result AuthResult × State b) → Option (Result (Reply UserPublicProfile) × State b)
  unfolding complete_auth
  complete_registration none = none
  complete_registration (some (err e, w)) = some (err e, w)
  complete_registration (some (ok r, w)) = some (ok (complete_auth r), w)

  -- With the ids of the new session and its family; out of fuel for the slug, `none`.
  unfoldable pub register_user :
      ℕ
      → Time
      → (id family_id : Uuid) → HttpRequest
      → RegisterDto
      → State b
      → Option (Result (Reply UserPublicProfile) × State b)
  unfolding register request_session_metadata complete_registration
  register_user fuel now id family_id request dto w = complete_registration (
      register b.tables b.sessions b.session_transactions b.keys b.unicode b.verifiers
        b.transactions fuel now id family_id
        (record {
          email = dto.email;
          password = dto.password;
          name = dto.name;
          organization_name = dto.organization_name;
          session = request_session_metadata request;
        })
        w)

  unfoldable pub sign_in :
      Time
      → (id family_id : Uuid) → HttpRequest
      → LoginDto
      → Action (State b) (Reply UserPublicProfile)
  unfolding login request_session_metadata complete_auth
  sign_in now id family_id request dto =
      login b.tables b.sessions b.session_transactions b.keys b.unicode b.verifiers now id family_id
        (record {
          email = dto.email;
          password = dto.password;
          session = request_session_metadata request;
        })
      >>= λ result. pure (complete_auth result)

  unfoldable pub refresh_with :
      Time → Uuid → Text → SessionMetadata → Action (State b) (Reply UserPublicProfile)
  unfolding refresh complete_auth
  refresh_with now id [] metadata = throw (unauthorized (codes "Missing refresh token"))
  refresh_with now id (c ∷ s) metadata =
      refresh b.tables b.sessions b.session_transactions b.keys b.unicode b.verifiers now id (c ∷ s)
        metadata
      >>= λ result. pure (complete_auth result)

  abbrev pub or_empty : Option Text → Text
  or_empty none = []
  or_empty (some token) = token

  -- A missing cookie and an empty one are the same.
  unfoldable pub refresh_tokens :
      Time → Uuid → HttpRequest → Action (State b) (Reply UserPublicProfile)
  unfolding refresh_with request_session_metadata
  refresh_tokens now id request =
      refresh_with now id (or_empty request.refresh_token) (request_session_metadata request)

  unfoldable pub sign_out : Time → HttpRequest → Action (State b) (Reply (Unit {0}))
  unfolding logout clear_session_cookies
  sign_out now request w = (
    ok (record { body = tt; cookies = clear_session_cookies b.cookies }),
    logout b.tables b.sessions b.session_transactions b.keys b.unicode b.verifiers now
        request.refresh_token w,
  )

  unfoldable pub me : Time → HttpRequest → Action (State b) UserPublicProfile
  unfolding jwt_auth_guard
  me now request = guarded b (jwt_auth_guard b now request) λ p. pure p.user

  -- The callback, with the profile that the strategy accepted; the answer redirects to the
  -- frontend.
  unfoldable pub google_callback :
      Time
      → (id family_id : Uuid) → GoogleProfile
      → HttpRequest
      → Action (State b) (Reply (Unit {0}))
  unfolding google_auth request_session_metadata set_session_cookies
  google_callback now id family_id profile request =
      google_auth b.tables b.sessions b.session_transactions b.keys b.unicode b.verifiers now id
        family_id profile (request_session_metadata request)
      >>= λ result.
          pure (record { body = tt; cookies = set_session_cookies b.cookies result.tokens })
