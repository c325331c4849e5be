-- ===== src/Auth/Context.antt =====
-- common/context: auth-context.middleware.ts, what a request's context holds, from its cookies and
-- the header with its id, and auth-context.service.ts, which reads it.
use gym_saas_be.Prelude.{
  Option, none, some, [], ◌∷◌, Text, ◌==◌, if◌then◌else◌, ℕ, Bool, ◌&&◌, ◌||◌, leb, all, length,
}
use gym_saas_be.Store.{Uuid}
use gym_saas_be.Entities.{Tables, Db}
use gym_saas_be.Memberships.{is_active_member}
use gym_saas_be.Sessions.Service.{TokenPayload}

-- `SAFE_REQUEST_ID`.
unfoldable pub is_safe_char : ℕ → Bool
is_safe_char c =
    (leb b'A' c && leb c b'Z')
    || (leb b'a' c && leb c b'z')
    || (leb b'0' c && leb c b'9')
    || c == b'.'
    || c == b'_'
    || c == b':'
    || c == b'-'

unfoldable pub is_safe_request_id : Text → Bool
unfolding is_safe_char
is_safe_request_id id = all id is_safe_char && leb 1 (length id) && leb (length id) 128

-- `resolveRequestId`, with the random id that it may need.
unfoldable pub resolve_request_id : Text → Option Text → Text
unfolding is_safe_request_id
resolve_request_id random none = random
resolve_request_id random (some candidate) =
    if is_safe_request_id candidate then candidate else random

pub record AuthContext : Type 0 where
  pub request_id : Text
  pub account_id : Option Uuid
  pub session_id : Option Uuid
  pub active_organization_id : Option Uuid

abbrev pub anonymous : Text → AuthContext
anonymous request_id = record {
  request_id = request_id;
  account_id = none;
  session_id = none;
  active_organization_id = none;
}

module _ (t : Tables) where
  -- The organization of the cookie, if it is not empty and the account is an active member of it.
  unfoldable pub active_of : Uuid → Option Uuid → Db t → Option Uuid
  unfolding is_active_member
  active_of account_id none db = none
  active_of account_id (some candidate) db =
      if candidate == 0
      then none
      else if is_active_member t account_id candidate db
      then some candidate
      else none

  unfoldable pub context_of : Text → Option TokenPayload → Option Uuid → Db t → AuthContext
  unfolding active_of
  context_of request_id none cookie db = anonymous request_id
  context_of request_id (some payload) cookie db = record {
    request_id = request_id;
    account_id = some payload.sub;
    session_id = some payload.session_id;
    active_organization_id = active_of payload.sub cookie db;
  }

  -- `AuthContextMiddleware.use` once the request has its id, with the verification of an access
  -- token; an empty cookie counts as none.
  unfoldable pub use_context :
      (Text → Option TokenPayload) → Text → Option Text → Option Uuid → Db t → AuthContext
  unfolding context_of
  use_context verify request_id none cookie db = anonymous request_id
  use_context verify request_id (some []) cookie db = anonymous request_id
  use_context verify request_id (some (c ∷ s)) cookie db =
      context_of request_id (verify (c ∷ s)) cookie db

-- `AuthContextService`: what it reads of the store of the request, if there is one.
unfoldable pub get_request_id : Option AuthContext → Option Text
get_request_id none = none
get_request_id (some context) = some context.request_id

unfoldable pub get_account_id : Option AuthContext → Option Uuid
get_account_id none = none
get_account_id (some context) = context.account_id

unfoldable pub get_session_id : Option AuthContext → Option Uuid
get_session_id none = none
get_session_id (some context) = context.session_id

unfoldable pub get_active_organization_id : Option AuthContext → Option Uuid
get_active_organization_id none = none
get_active_organization_id (some context) = context.active_organization_id
