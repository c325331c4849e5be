-- ===== src/Auth/SignUp/Tests.antt =====
-- Registration and Google sign-in on the sample database, and the theorems applied to them.
use gym_saas_be.Prelude.{
  ℕ, ◌≤◌, ◌≡◌, refl, none, some, [], ◌∷◌, codes, text_eq, Unicode, Option, arith, Bool, true, false,
  is_some,
}
use gym_saas_be.Samples.{tables, sample, sample_runs}
use gym_saas_be.Store.{Uuid}
use gym_saas_be.Errors.{Result, ok, err, type_error}
use gym_saas_be.Entities.{User}
use gym_saas_be.Sessions.ListSessions.{list_sessions, run_transaction, list_sessions_run}
use gym_saas_be.Sessions.Service.{Keys, SessionMetadata}
use gym_saas_be.Auth.{World, Verifiers, AuthResult, RegisterCommand, GoogleProfile}
use gym_saas_be.Users.Repository.{find_by_google_id}
use gym_saas_be.Users.UseCases.{find_user_by_email}
use gym_saas_be.Auth.SignUp.{register, google_auth}
use gym_saas_be.Auth.Registered.{AfterRegister}
use gym_saas_be.Auth.Finished.{register_ends}
use gym_saas_be.Auth.Google.{AfterGoogle, google_auth_lem}

abbrev keys : Keys
keys = record {
  issue_tokens = λ p. record { access_token = p.sub ∷ []; refresh_token = p.session_id ∷ [] };
  digest = λ token. token;
  refresh_ttl_ms = 100;
}

abbrev verifiers : Verifiers
verifiers = record { hash = λ password. password; compare = text_eq; verify = λ token. none }

abbrev plain : Unicode
plain = record { nfd = λ s. s; to_lower = λ s. s }

abbrev nothing_known : SessionMetadata
nothing_known = record { user_agent = none; ip_address = none }

abbrev cat : RegisterCommand
cat = record {
  email = codes " cat ";
  password = codes "secret";
  name = codes "Cat";
  organization_name = codes "gym";
  session = nothing_known;
}

-- Bob, who registered with a password, comes back with Google.
abbrev bob : GoogleProfile
bob = record { google_id = codes "g1"; email = codes "bob"; name = codes "Bob" }

before : World tables list_sessions
before = record { db = sample; sessions = ([], tt) }

registered : Result AuthResult × World tables list_sessions
unfolding register before
registered =
    elim (register tables list_sessions run_transaction keys plain verifiers run_transaction 3 10 21
      31 cat before) [ none ↦ (err type_error, before) | some o ↦ o ]

-- The roles have not been seeded.
without_roles : World tables list_sessions
unfolding sample_runs
without_roles = record { db = record sample { roles = ([], tt) }; sessions = ([], tt) }

left_behind : Option (Result AuthResult × World tables list_sessions)
unfolding register without_roles
left_behind =
    register tables list_sessions run_transaction keys plain verifiers run_transaction 3 10 21 31
      cat without_roles

linked : Result AuthResult × World tables list_sessions
unfolding google_auth before
linked =
    google_auth tables list_sessions run_transaction keys plain verifiers 10 21 31 bob nothing_known
      before

runs : Unit {0}
unfolding registered linked left_behind before without_roles register google_auth find_user_by_email
    find_by_google_id sample_runs list_sessions_run
runs = tt

active_organization_of : Result AuthResult → Option Uuid
active_organization_of (ok r) = r.active_organization_id
active_organization_of (err e) = none

-- The slug "gym" is taken, the organization is a new one.
organization_made : active_organization_of registered.0 ≡ some 10
unfolding runs active_organization_of
organization_made = refl

-- The request fails, and another one with the same email finds it taken.
user_of : Option (Result AuthResult × World tables list_sessions) → Bool
user_of none = false
user_of (some (ok r, w)) = false
user_of (some (err e, w)) = is_some (find_user_by_email tables plain (codes "cat") w.db)

user_remains : user_of left_behind ≡ true
unfolding runs user_of
user_remains = refl

id_of : Option User → Uuid
id_of none = 0
id_of (some a) = a.id

linked_by_email : id_of (find_by_google_id tables (codes "g1") linked.1.db) ≡ 8
unfolding runs id_of
linked_by_email = refl

register_ends_example :
    (turns : ℕ) × ((fuel : ℕ)
      → turns ≤ fuel
      → (o : Result AuthResult × World tables list_sessions) × (register tables list_sessions
            run_transaction keys plain verifiers run_transaction fuel 10 21 31 cat before
          ≡ some o)
        × AfterRegister tables list_sessions run_transaction keys plain verifiers 10 21 cat before
            o)
register_ends_example =
    register_ends tables list_sessions run_transaction keys plain verifiers run_transaction 10 21 31
      cat before (omega arith)

google_auth_lem_example :
    AfterGoogle tables list_sessions run_transaction keys plain verifiers 10 21 bob before linked
unfolding linked
google_auth_lem_example =
    google_auth_lem tables list_sessions run_transaction keys plain verifiers 10 21 31 bob
      nothing_known before (omega arith)
