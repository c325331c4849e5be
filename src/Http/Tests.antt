-- ===== src/Http/Tests.antt =====
-- The theorems on the edge of the server at concrete data.
use gym_saas_be.Prelude.{
  ◌≡◌, refl, ◌≢◌, ◌↔◌, ◌⊎◌, ◌≤◌, true, false, none, [], ◌∷◌, arith, is_some, codes, Text, Option,
  some, text_eq,
}
use gym_saas_be.Errors.{ok, plain_error, domain, sole_owner, err, forbidden}
use gym_saas_be.Entities.{Session, local}
use gym_saas_be.Users.{UserPublicProfile}
use gym_saas_be.Sessions.{is_open_owned, is_active_session}
use gym_saas_be.Sessions.Repository.{save, is_active, revoke_owned}
use gym_saas_be.Sessions.Service.{Keys, SessionMetadata, start, build_session, TokenPayload}
use gym_saas_be.Sessions.ListSessions.{list_sessions, run_transaction, list_sessions_run}
use gym_saas_be.Http.Cookies.{CookieConfig, clear_session_cookies}
use gym_saas_be.Http.Sessions.{revoke, finish_revoke, IsAnswered, revoke_lem}
use gym_saas_be.Http.Failures.{
  HttpExceptions, response_status, logged_status, http_exception, IsFault, response_status_iff,
  logged_status_iff,
}
use gym_saas_be.Http.Logging.{RequestLine, Names, catch_any, intercept}
use gym_saas_be.Http.Logged.{IsQueryFree, IsPathOf, IsLogFor, catch_any_lem}
use gym_saas_be.Samples.{tables, sample, sample_runs}
use gym_saas_be.Http.Requests.{Backend, HttpRequest, State, business_guards}
use gym_saas_be.Http.Members.{remove}
use gym_saas_be.Memberships.UseCases.{remove_member}
use gym_saas_be.Http.Removal.{AfterRemove, remove_lem}

-- A token names its session, and is its own digest.
abbrev keys : Keys
keys = record {
  issue_tokens = λ p. record { access_token = []; refresh_token = p.session_id ∷ [] };
  digest = λ token. token;
  refresh_ttl_ms = 1000;
}

abbrev ben : UserPublicProfile
ben = record { id = 5; email = []; name = []; provider = local; created_at = 0; avatar_url = none }

abbrev metadata : SessionMetadata
metadata = record { user_agent = none; ip_address = none }

abbrev config : CookieConfig
config = record { secure = true; domain = codes "gym.test"; active_org_cookie = codes "active_org" }

signed_in : list_sessions.Store
unfolding start list_sessions_run
signed_in = (start list_sessions run_transaction keys 10 40 40 ben metadata ([], tt)).1

-- Revoking the request's own session answers with cleared cookies.
own_session_revoked :
    (revoke list_sessions config 20 5 40 40 true signed_in).0 ≡ ok (clear_session_cookies config)
unfolding start build_session save list_sessions_run signed_in revoke finish_revoke revoke_owned
    is_open_owned
own_session_revoked = refl

revoke_lem_example :
    let (r, s') = revoke list_sessions config 20 5 40 40 true signed_in in
    IsAnswered list_sessions config 5 40 40 true signed_in r
    × (is_active list_sessions 5 40 30 s' ≡ false)
    × ((a : Session)
        → list_sessions.row signed_in 40 ≡ some a
        → a.cols.user_id ≢ 5
        → list_sessions.row s' 40 ≡ some a)
revoke_lem_example = revoke_lem list_sessions config 20 30 5 40 40 true signed_in

-- The framework's exceptions with the statuses of HTTP.
abbrev standard : HttpExceptions
standard = record {
  of_unauthorized = λ m. record {
    status_code = 401;
    name = codes "UnauthorizedException";
    error = none;
    message = m;
  };
  of_forbidden = λ m. record {
    status_code = 403;
    name = codes "ForbiddenException";
    error = none;
    message = m;
  };
  of_not_found = λ m. record {
    status_code = 404;
    name = codes "NotFoundException";
    error = none;
    message = m;
  };
}

response_status_iff_example :
    (500 ≤ response_status standard true (plain_error [])) ↔ IsFault standard (plain_error [])
response_status_iff_example =
    response_status_iff standard (λ m. (omega arith, omega arith, omega arith)) (plain_error [])

logged_status_iff_example :
    (logged_status standard (domain sole_owner) ≡ response_status standard true (domain sole_owner))
    ↔ ((is_some (http_exception standard (domain sole_owner)) ≡ true)
        ⊎ IsFault standard (domain sole_owner))
logged_status_iff_example =
    logged_status_iff standard (λ m. (omega arith, omega arith, omega arith)) (domain sole_owner)

-- A server over the sample database: an access token is its user's and its session's id.
abbrev access : Text → Option TokenPayload
access (sub ∷ id ∷ email) = some (record { sub = sub; email = email; session_id = id })
access _ = none

abbrev server : Backend
server = record {
  tables = tables;
  sessions = list_sessions;
  transactions = run_transaction;
  session_transactions = run_transaction;
  keys = keys;
  unicode = record { nfd = λ s. s; to_lower = λ s. s };
  verifiers = record { hash = λ s. s; compare = text_eq; verify = access };
  verify_access = λ now. access;
  storage = record { put = λ key buffer kind. some key; print_id = λ i. i ∷ [] };
  print_id = λ i. i ∷ [];
  registry = record { validators = []; default_validator = none };
  cookies = config;
}

-- Ann (7), an owner of the organization (9), is signed in with session 50.
abbrev ann : UserPublicProfile
ann = record ben { id = 7; email = codes "ann"; name = codes "ann"; created_at = 1 }

ann_signed_in : State server
unfolding start list_sessions_run sample
ann_signed_in = record {
  db = sample;
  sessions = (start list_sessions run_transaction keys 10 50 50 ann metadata ([], tt)).1;
}

abbrev by_ann : HttpRequest
by_ann = record {
  access_token = some (7 ∷ 50 ∷ []);
  refresh_token = none;
  active_org = some 9;
  request_id = none;
  random_id = codes "r-1";
  param = λ name. none;
  user_agent = none;
  ip = none;
}

served : Unit {0}
unfolding is_active_session sample_runs list_sessions_run ann_signed_in remove business_guards start
    remove_member
served = tt

bob_removed : (remove server 20 by_ann 9 8 ann_signed_in).0 ≡ ok tt
unfolding served
bob_removed = refl

other_organization :
    (remove server 20 (record by_ann { active_org = some 4 }) 9 8 ann_signed_in).0
    ≡ err (forbidden (codes "No active organization selected"))
unfolding served
other_organization = refl

remove_lem_example :
    AfterRemove server 20 by_ann 9 8 ann_signed_in (remove server 20 by_ann 9 8 ann_signed_in)
remove_lem_example = remove_lem server 20 by_ann 9 8 ann_signed_in (omega arith)

-- A request whose parsed path is empty, with a query in its address.
abbrev with_query : RequestLine
with_query = record {
  method = codes "POST";
  path = [];
  original_url = some (codes "/auth/login?token=secret");
  url = codes "/auth/login?token=secret";
}

abbrev names : Names
names = record { name_of = λ x. codes "Error"; message_of = λ x. [] }

logging_runs : Unit {0}
unfolding catch_any intercept list_sessions_run
logging_runs = tt

query_dropped :
    (intercept standard names none with_query 201 5 9
      (revoke list_sessions config 20 5 40 40 true)
      signed_in).1.path
    ≡ codes "/auth/login"
unfolding logging_runs
query_dropped = refl

catch_any_lem_example :
    let caught = catch_any standard names none 9 with_query (plain_error (codes "broken")) in
    let handled =
      intercept standard names none with_query 201 5 9
        (revoke list_sessions config 20 5 40 40 true)
        signed_in in
    (caught.0.0 ≡ 500)
    × (caught.0.1.status_code ≡ caught.0.0)
    × IsQueryFree caught.0.1.path
    × IsPathOf with_query caught.0.1.path
    × IsLogFor standard names caught.0.1 caught.1
    × (handled.0 ≡ revoke list_sessions config 20 5 40 40 true signed_in)
    × (handled.1.path ≡ caught.0.1.path)
unfolding logging_runs
catch_any_lem_example =
    catch_any_lem standard names none 9 5 with_query (plain_error (codes "broken"))
      (revoke list_sessions config 20 5 40 40 true) signed_in 201 refl
