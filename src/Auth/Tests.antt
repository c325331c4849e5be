-- ===== src/Auth/Tests.antt =====
-- Authentication on the sample database, and the theorems applied to it.
use gym_saas_be.Prelude.{
  ◌≡◌, refl, none, some, [], ◌∷◌, codes, text_eq, Unicode, arith, Text, Option,
}
use gym_saas_be.Samples.{tables, sample, sample_runs}
use gym_saas_be.Errors.{Result, err, duplicate_email}
use gym_saas_be.Entities.{Db, User, local}
use gym_saas_be.Users.UseCases.{CreateUserCommand, create_user}
use gym_saas_be.Permissions.Guard.{active_org_guard}
use gym_saas_be.Sessions.ListSessions.{list_sessions, run_transaction, list_sessions_run}
use gym_saas_be.Sessions.Service.{Keys, TokenPayload}
use gym_saas_be.Auth.{World, Verifiers, LoginCommand, AuthResult, login, validate_claims, refresh}
use gym_saas_be.Auth.Context.{use_context}
use gym_saas_be.Auth.Accounts.{AfterCreateUser, create_user_lem}
use gym_saas_be.Auth.Credentials.{AfterLogin, login_lem}
use gym_saas_be.Auth.Renewal.{AfterRefresh, login-refresh}

abbrev keys : Keys
keys = record {
  issue_tokens = λ p. record { access_token = p.sub ∷ []; refresh_token = p.session_id ∷ [] };
  digest = λ token. token;
  refresh_ttl_ms = 100;
}

-- A hash is the password, and a token verifies as one of Ann's.
abbrev verifiers : Verifiers
verifiers = record {
  hash = λ password. password;
  compare = text_eq;
  verify = λ token. some (record { sub = 7; email = codes "ann"; session_id = 21 });
}

abbrev plain : Unicode
plain = record { nfd = λ s. s; to_lower = λ s. s }

abbrev cat : CreateUserCommand
cat = record {
  email = codes " cat ";
  name = codes "Cat";
  provider = local;
  password_hash = some (codes "secret");
  google_id = none;
}

abbrev credentials : LoginCommand
credentials = record {
  email = codes "cat";
  password = codes "secret";
  session = record { user_agent = none; ip_address = none };
}

with_cat : Result User × Db tables
unfolding create_user sample_runs
with_cat = create_user tables plain cat sample

before : World tables list_sessions
unfolding with_cat
before = record { db = with_cat.1; sessions = ([], tt) }

logged_in : Result AuthResult × World tables list_sessions
unfolding login before
logged_in =
    login tables list_sessions run_transaction keys plain verifiers 10 21 31 credentials before

abbrev claims : TokenPayload
claims = record { sub = 16; email = codes "cat"; session_id = 21 }

runs : Unit {0}
unfolding with_cat before logged_in create_user sample_runs list_sessions_run login validate_claims
    use_context active_org_guard
runs = tt

same_email_twice :
    (create_user tables plain (record cat { email = codes "cat" }) with_cat.1).0
    ≡ err (duplicate_email (codes "cat"))
unfolding runs
same_email_twice = refl

create_user_lem_example : AfterCreateUser tables plain cat sample with_cat.0 with_cat.1
unfolding with_cat
create_user_lem_example = create_user_lem tables plain cat sample with_cat.1 with_cat.0 refl

login_lem_example :
    AfterLogin tables list_sessions run_transaction keys plain verifiers 10 21 credentials before
      logged_in.0 logged_in.1
unfolding logged_in
login_lem_example =
    login_lem tables list_sessions run_transaction keys plain verifiers 10 21 31 credentials before
      logged_in.1 logged_in.0 (omega arith) refl

-- Tokens that carry their claims, and a refresh after Cat's login.
abbrev coded_keys : Keys
coded_keys = record {
  issue_tokens = λ p. record {
    access_token = p.sub ∷ p.session_id ∷ p.email;
    refresh_token = p.sub ∷ p.session_id ∷ p.email;
  };
  digest = λ token. token;
  refresh_ttl_ms = 100;
}

abbrev decode : Text → Option TokenPayload
decode (sub ∷ id ∷ email) = some (record { sub = sub; email = email; session_id = id })
decode _ = none

abbrev decoding : Verifiers
decoding = record { hash = λ password. password; compare = text_eq; verify = decode }

cat_in : Result AuthResult × World tables list_sessions
unfolding login before
cat_in =
    login tables list_sessions run_transaction coded_keys plain decoding 10 21 31 credentials before

abbrev cat_result : AuthResult
cat_result = record {
  user = record {
    id = 16;
    email = codes "cat";
    name = codes "Cat";
    provider = local;
    created_at = 0;
    avatar_url = none;
  };
  tokens = coded_keys.issue_tokens (record { sub = 16; email = codes "cat"; session_id = 21 });
  active_organization_id = none;
}

login-refresh_example :
    AfterRefresh tables list_sessions run_transaction coded_keys plain decoding 50 22 16
      cat_result.user cat_in.1
      (refresh tables list_sessions run_transaction coded_keys plain decoding 50 22
        cat_result.tokens.refresh_token
        (record { user_agent = none; ip_address = none })
        cat_in.1)
unfolding runs cat_in
login-refresh_example =
    login-refresh tables list_sessions run_transaction coded_keys plain decoding (λ p. refl) 10 50
      21 31 22 credentials (record { user_agent = none; ip_address = none }) before cat_in.1
      cat_result (omega arith) (omega arith) (omega arith) refl (omega arith)
