-- ===== src/Http/SignedIn/Tests.antt =====
-- A login over HTTP, the account's page, and signing out, on the sample database.
use gym_saas_be.Prelude.{
  ◌<◌, ◌≤◌, ◌≡◌, refl, ltb, ltb→lt, lt→ltb, if◌then◌else◌, Option, none, some, [], ◌∷◌, Text, codes,
  text_eq, Unicode, arith, true,
}
use gym_saas_be.Samples.{tables, sample, sample_runs}
use gym_saas_be.Store.{Time}
use gym_saas_be.Errors.{Result, ok, err, unauthorized}
use gym_saas_be.Entities.{Db, local}
use gym_saas_be.Users.{UserPublicProfile}
use gym_saas_be.Users.UseCases.{create_user}
use gym_saas_be.Sessions.{is_open_owned, is_active_session}
use gym_saas_be.Sessions.ListSessions.{list_sessions, run_transaction, list_sessions_run}
use gym_saas_be.Sessions.Service.{TokenPayload}
use gym_saas_be.Http.Requests.{Backend, HttpRequest, Reply, State}
use gym_saas_be.Http.Auth.{LoginDto, sign_in, sign_out, me}
use gym_saas_be.Http.SignedIn.{cookie_value, LivesFor, sign_in-me}

-- Both tokens spell out their claims.
abbrev spelled : TokenPayload → Text
spelled p = p.sub ∷ p.session_id ∷ p.email

abbrev claims : Text → Option TokenPayload
claims (sub ∷ id ∷ email) = some (record { sub = sub; email = email; session_id = id })
claims _ = none

abbrev plain : Unicode
plain = record { nfd = λ s. s; to_lower = λ s. s }

abbrev server : Backend
server = record {
  tables = tables;
  sessions = list_sessions;
  transactions = run_transaction;
  session_transactions = run_transaction;
  keys = record {
    issue_tokens = λ p. record { access_token = spelled p; refresh_token = spelled p };
    digest = λ token. token;
    refresh_ttl_ms = 100;
  };
  unicode = plain;
  verifiers = record { hash = λ password. password; compare = text_eq; verify = claims };
  verify_access = λ now token. if ltb now 60 then claims token else none;
  storage = record { put = λ key buffer kind. some key; print_id = λ i. i ∷ [] };
  print_id = λ i. i ∷ [];
  registry = record { validators = []; default_validator = none };
  cookies = record {
    secure = true;
    domain = codes "gym.test";
    active_org_cookie = codes "active_org";
  };
}

abbrev request : HttpRequest
request = record {
  access_token = none;
  refresh_token = none;
  active_org = none;
  request_id = none;
  random_id = codes "r-1";
  param = λ name. none;
  user_agent = none;
  ip = none;
}

abbrev dto : LoginDto
dto = record { email = codes "cat"; password = codes "secret" }

with_cat : Db tables
unfolding create_user sample_runs
with_cat =
    (create_user tables plain
      (record {
        email = codes "cat";
        name = codes "Cat";
        provider = local;
        password_hash = some (codes "secret");
        google_id = none;
      })
      sample).1

before : State server
unfolding with_cat
before = record { db = with_cat; sessions = ([], tt) }

signed_in : Result (Reply UserPublicProfile) × State server
unfolding sign_in before
signed_in = sign_in server 10 21 31 request dto before

abbrev nobody : Reply UserPublicProfile
nobody = record {
  body = record {
    id = 0;
    email = [];
    name = [];
    provider = local;
    created_at = 0;
    avatar_url = none;
  };
  cookies = [];
}

reply_of : Result (Reply UserPublicProfile) → Reply UserPublicProfile
reply_of (ok r) = r
reply_of (err x) = nobody

-- The next request sends the cookies back.
abbrev next : HttpRequest
next = record request {
  access_token = some (spelled (record { sub = 16; email = codes "cat"; session_id = 21 }));
  refresh_token = some (spelled (record { sub = 16; email = codes "cat"; session_id = 21 }));
}

runs : Unit {0}
unfolding before with_cat create_user sample_runs list_sessions_run signed_in sign_in sign_out me
    reply_of cookie_value is_open_owned is_active_session
runs = tt

me_later : (me server 50 next signed_in.1).0 ≡ ok (reply_of signed_in.0).body
unfolding runs
me_later = refl

me_expired : (me server 60 next signed_in.1).0 ≡ err (unauthorized (codes "Unauthorized"))
unfolding runs
me_expired = refl

me_signed_out :
    (me server 50 next (sign_out server 40 next signed_in.1).1).0
    ≡ err (unauthorized (codes "Session is no longer active"))
unfolding runs
me_signed_out = refl

lives : LivesFor server 10 50
lives = record {
  fresh = λ p now' h. ground (arith, lt→ltb now' 60 h);
  expired = λ p now' h. ground (arith, ltb→lt now' 60);
}

sign_in-me_example :
    ((now' : Time)
      → now' < 60
      → now' < 110
      → me server now' next signed_in.1 ≡ (ok (reply_of signed_in.0).body, signed_in.1))
    × ((now' : Time) (any : State server)
        → 60 ≤ now'
        → me server now' next any ≡ (err (unauthorized (codes "Unauthorized")), any))
    × ((later now' : Time)
        → later < 110
        → now' < 60
        → let out = (sign_out server later next signed_in.1).1 in
          me server now' next out ≡ (err (unauthorized (codes "Session is no longer active")), out))
unfolding runs
sign_in-me_example =
    sign_in-me server 10 50 21 31 request next dto before signed_in.1 (reply_of signed_in.0)
      (omega arith) lives (λ p. refl) (λ p e. cc) refl refl refl
