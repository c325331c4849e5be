-- ===== src/Http/Logging.antt =====
-- common/filters/all-exceptions.filter.ts and modules/auth/interfaces/domain-exception.filter.ts,
-- the bodies that they answer with; common/logging: the entries that the interceptor and the filter
-- hand to the logger, which writes them as JSON.
use gym_saas_be.Prelude.{ℕ, ◌-◌, Option, none, some, [], ◌∷◌, Text, codes, leb, ◌==◌, if◌then◌else◌}
use gym_saas_be.Store.{Uuid, Time}
use gym_saas_be.Errors.{Exception, duplicate_email, Result, ok, err}
use gym_saas_be.Entities.{Action}
use gym_saas_be.Auth.Context.{AuthContext}
use gym_saas_be.Http.Failures.{HttpExceptions, ResolvedError, resolve, logged_status}

-- What the filters and the interceptor read of a request.
pub record RequestLine : Type 0 where
  pub method : Text
  pub path : Text
  pub original_url : Option Text
  pub url : Text

pub record ErrorResponseBody : Type 0 where
  pub request_id : Text
  pub status_code : ℕ
  pub error : Text
  pub message : Text
  pub timestamp : Time
  pub path : Text

pub record HttpErrorLog : Type 0 where
  pub request_id : Text
  pub method : Text
  pub path : Text
  pub status_code : ℕ
  pub error_type : Text
  pub message : Text
  pub account_id : Option Uuid
  pub active_organization_id : Option Uuid

pub data Outcome : Type 0 where
  success error : Outcome

pub record HttpRequestLog : Type 0 where
  pub request_id : Text
  pub method : Text
  pub path : Text
  pub status_code : ℕ
  pub duration_ms : ℕ
  pub outcome : Outcome
  pub account_id : Option Uuid
  pub active_organization_id : Option Uuid

-- `s.split('?')[0]`.
unfoldable pub before_mark : Text → Text
before_mark [] = []
before_mark (c ∷ s) = let rest = before_mark s in if c == b'?' then [] else c ∷ rest

-- `a || b` on texts, and on one that may be undefined.
abbrev pub or_text : Text → Text → Text
or_text [] other = other
or_text (c ∷ s) other = c ∷ s

unfoldable pub before_mark_or : Option Text → Text → Text
unfolding before_mark
before_mark_or none other = other
before_mark_or (some s) other = or_text (before_mark s) other

unfoldable pub path_without_query : RequestLine → Text
unfolding before_mark before_mark_or
path_without_query request =
    or_text request.path (before_mark_or request.original_url (before_mark request.url))

abbrev pub request_id_of : Option AuthContext → Text
request_id_of none = codes "unknown"
request_id_of (some c) = c.request_id

abbrev pub account_id_of : Option AuthContext → Option Uuid
account_id_of none = none
account_id_of (some c) = c.account_id

abbrev pub active_organization_id_of : Option AuthContext → Option Uuid
active_organization_id_of none = none
active_organization_id_of (some c) = c.active_organization_id

-- The name of an error's class, and the message of the errors that the filter of modules/auth
-- takes.
pub record Names : Type 0 where
  pub name_of : Exception → Text
  pub message_of : Exception → Text

unfoldable pub error_log : Option AuthContext → RequestLine → Text → ResolvedError → HttpErrorLog
unfolding path_without_query
error_log context request error_type resolved = record {
  request_id = request_id_of context;
  method = request.method;
  path = path_without_query request;
  status_code = resolved.status_code;
  error_type = error_type;
  message = resolved.message;
  account_id = account_id_of context;
  active_organization_id = active_organization_id_of context;
}

module _ (h : HttpExceptions) (n : Names) where
  -- `AllExceptionsFilter.catch`: the response's status and body, and what is logged.
  unfoldable pub catch_any :
      Option AuthContext
      → Time
      → RequestLine
      → Exception
      → (ℕ × ErrorResponseBody) × Option HttpErrorLog
  unfolding resolve error_log
  catch_any context now request exception =
      let resolved = resolve h exception in
      (
        (
          resolved.status_code,
          record {
            request_id = request_id_of context;
            status_code = resolved.status_code;
            error = resolved.error;
            message = resolved.message;
            timestamp = now;
            path = path_without_query request;
          },
        ),
        (if leb 500 resolved.status_code
            then some (error_log context request (n.name_of exception) resolved)
            else none),
      )

  abbrev pub resolve_user_error : Exception → ℕ × Text
  resolve_user_error (duplicate_email email) = (409, codes "Conflict")
  resolve_user_error _ = (404, codes "Not Found")

  -- The `catch` of modules/auth, for the errors of the users' module.
  unfoldable pub catch_user_error :
      Option AuthContext → Time → RequestLine → Exception → ℕ × ErrorResponseBody
  unfolding path_without_query
  catch_user_error context now request exception =
      let (status_code, error_name) = resolve_user_error exception in
      (
        status_code,
        record {
          request_id = request_id_of context;
          status_code = status_code;
          error = error_name;
          message = n.message_of exception;
          timestamp = now;
          path = path_without_query request;
        },
      )

  abbrev pub outcome_of : {A : Type 0} → ℕ → Result A → ℕ × Outcome
  unfolding logged_status
  outcome_of status_code (ok a) = (status_code, success)
  outcome_of status_code (err x) = (logged_status h x, error)

  -- `HttpLoggingInterceptor.log`.
  unfoldable pub request_log :
      Option AuthContext → RequestLine → (ℕ × Outcome) → (started_at now : Time) → HttpRequestLog
  unfolding path_without_query
  request_log context request (status_code, outcome) started_at now = record {
    request_id = request_id_of context;
    method = request.method;
    path = path_without_query request;
    status_code = status_code;
    duration_ms = now - started_at;
    outcome = outcome;
    account_id = account_id_of context;
    active_organization_id = active_organization_id_of context;
  }

  -- `intercept`, around a handler that ends at `now`: its answer, and the entry that is logged.
  unfoldable pub intercept :
      {A S : Type 0}
      → Option AuthContext
      → RequestLine
      → ℕ
      → (started_at now : Time) → Action S A
      → S
      → (Result A × S) × HttpRequestLog
  unfolding request_log outcome_of
  intercept context request status_code started_at now handler s =
      let (r, s') = handler s in
      ((r, s'), request_log context request (outcome_of status_code r) started_at now)
