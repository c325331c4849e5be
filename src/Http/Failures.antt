-- ===== src/Http/Failures.antt =====
-- common/filters/all-exceptions.filter.ts, the two domain-exception.filter.ts, and the status that
-- common/logging/http-logging.interceptor.ts writes. The exceptions of the framework carry a
-- status and a payload, which is an argument.
use gym_saas_be.Prelude.{
  ℕ, ◌≡◌, ◌≢◌, ◌↔◌, ◌<◌, ◌≤◌, ◌⊎◌, inl, inr, is_some, text_eq_iff, Bool-cases, Bool, true, false,
  Option, none, some, Text, codes, text_eq, arith, if◌then◌else◌, with_default,
}
use gym_saas_be.Errors.{
  DomainError, Exception, status, domain, duplicate_email, user_not_found, unauthorized, forbidden,
  not_found, entity_not_found, query_failed, plain_error, type_error,
}

-- An `HttpException` of the framework: what `getStatus` gives, and the fields of `getResponse`.
pub record Payload : Type 0 where
  pub status_code : ℕ
  pub name : Text
  pub error : Option Text
  pub message : Text

pub record ResolvedError : Type 0 where
  pub status_code : ℕ
  pub error : Text
  pub message : Text

-- What the framework says of its exceptions, from their message.
pub record HttpExceptions : Type 0 where
  pub of_unauthorized : Text → Payload
  pub of_forbidden : Text → Payload
  pub of_not_found : Text → Payload

module _ (h : HttpExceptions) where
  -- `exception instanceof HttpException`.
  unfoldable pub http_exception : Exception → Option Payload
  http_exception (unauthorized m) = some (h.of_unauthorized m)
  http_exception (forbidden m) = some (h.of_forbidden m)
  http_exception (not_found m) = some (h.of_not_found m)
  http_exception _ = none

  unfoldable pub from_http_exception : Payload → ResolvedError
  from_http_exception p = record {
    status_code = p.status_code;
    error = with_default p.name p.error;
    message = p.message;
  }

  abbrev internal_server_error : ResolvedError
  internal_server_error = record {
    status_code = 500;
    error = codes "Internal Server Error";
    message = codes "Internal server error";
  }

  unfoldable pub from_query_failed : Option Text → ResolvedError
  from_query_failed none = internal_server_error
  from_query_failed (some code) =
      if text_eq code (codes "23505")
      then record {
        status_code = 409;
        error = codes "Conflict";
        message = codes "Resource already exists";
      }
      else internal_server_error

  unfoldable pub resolve_other : Exception → ResolvedError
  unfolding from_query_failed
  resolve_other entity_not_found = record {
    status_code = 404;
    error = codes "Not Found";
    message = codes "Resource not found";
  }
  resolve_other (query_failed code) = from_query_failed code
  resolve_other _ = internal_server_error

  unfoldable pub resolve_with : Option Payload → Exception → ResolvedError
  unfolding from_http_exception resolve_other
  resolve_with (some p) x = from_http_exception p
  resolve_with none x = resolve_other x

  -- `AllExceptionsFilter.resolve`.
  unfoldable pub resolve : Exception → ResolvedError
  unfolding http_exception resolve_with
  resolve x = resolve_with (http_exception x) x

  -- The status of the response: the filter of the domain errors, which a controller may have, comes
  -- first, then the one of the users' errors, then the filter of all.
  unfoldable pub response_status : Bool → Exception → ℕ
  unfolding status resolve
  response_status true (domain e) = status e
  response_status filtered (duplicate_email m) = 409
  response_status filtered (user_not_found i) = 404
  response_status filtered x = (resolve x).status_code

  -- `HttpLoggingInterceptor`: the status that is logged for an error.
  unfoldable pub logged_status : Exception → ℕ
  unfolding http_exception
  logged_status x = elim (http_exception x) [ none ↦ 500 | some p ↦ p.status_code ]

  -- The framework's statuses stand for errors of the client.
  abbrev pub IsClientSide : Type 0
  IsClientSide =
      (m : Text)
      → ((h.of_unauthorized m).status_code < 500)
        × ((h.of_forbidden m).status_code < 500)
        × ((h.of_not_found m).status_code < 500)

  -- What is the server's own failure.
  pub IsFault : Exception → Type 0
  IsFault (plain_error m) = Unit
  IsFault type_error = Unit
  IsFault (query_failed code) = code ≢ some (codes "23505")
  IsFault _ = ⊥

  status-below : (e : DomainError) → status e < 500
  unfolding status
  status-below e = ground arith

  query_failed_iff :
      (code : Option Text)
      → (500 ≤ (from_query_failed code).status_code) ↔ (code ≢ some (codes "23505"))
  unfolding from_query_failed
  query_failed_iff none = ground arith
  query_failed_iff (some code) = elim (Bool-cases (text_eq code (codes "23505"))) [
    | inl e ↦ ground (arith, (text_eq_iff code (codes "23505")).0 e)
    | inr e ↦ ground (arith, (text_eq_iff code (codes "23505")).1)
  ]

  -- With the filter of the domain errors, the server answers with 500 or more exactly for a plain
  -- `Error`, a `TypeError` and a failed query that is no duplicate key, if the framework's own
  -- exceptions have a status below 500.
  pub response_status_iff :
      (client : IsClientSide) (x : Exception) → (500 ≤ response_status true x) ↔ IsFault x
  unfolding response_status resolve resolve_with resolve_other from_query_failed IsFault
  response_status_iff client (domain e) =
      ((λ l. let b = status-below e in omega arith), λ f. absurd f)
  response_status_iff client (duplicate_email m) = ground arith
  response_status_iff client (user_not_found i) = ground arith
  response_status_iff client (unauthorized m) = ground (arith, client m)
  response_status_iff client (forbidden m) = ground (arith, client m)
  response_status_iff client (not_found m) = ground (arith, client m)
  response_status_iff client entity_not_found = ground arith
  response_status_iff client (query_failed code) = query_failed_iff code
  response_status_iff client (plain_error m) = ground arith
  response_status_iff client type_error = ground arith

  query_failed_logged :
      (code : Option Text)
      → (500 ≡ (from_query_failed code).status_code)
        ↔ ((false ≡ true) ⊎ (code ≢ some (codes "23505")))
  unfolding from_query_failed
  query_failed_logged none = ground arith
  query_failed_logged (some code) = elim (Bool-cases (text_eq code (codes "23505"))) [
    | inl e ↦ ground (arith, (text_eq_iff code (codes "23505")).0 e)
    | inr e ↦ ground (arith, (text_eq_iff code (codes "23505")).1)
  ]

  -- The status that is logged for an error is the one of the response exactly for the framework's
  -- own exceptions and for the failures of the server, if the framework's exceptions have a status
  -- below 500: a domain error that is answered with 4xx is logged as 500.
  pub logged_status_iff :
      (client : IsClientSide) (x : Exception)
      → (logged_status x ≡ response_status true x)
        ↔ ((is_some (http_exception x) ≡ true) ⊎ IsFault x)
  unfolding response_status resolve resolve_with resolve_other from_query_failed http_exception
      logged_status IsFault
  logged_status_iff client (domain e) =
      ((λ l. let b = status-below e in omega arith), λ f. ground arith)
  logged_status_iff client (duplicate_email m) = ground arith
  logged_status_iff client (user_not_found i) = ground arith
  logged_status_iff client (unauthorized m) = ground arith
  logged_status_iff client (forbidden m) = ground arith
  logged_status_iff client (not_found m) = ground arith
  logged_status_iff client entity_not_found = ground arith
  logged_status_iff client (query_failed code) = query_failed_logged code
  logged_status_iff client (plain_error m) = ground arith
  logged_status_iff client type_error = ground arith
