-- ===== src/Auth.antt =====
-- Authentication: modules/auth (the use cases, the token service, the strategy behind the access
-- token). Password hashing and signing come from libraries and are arguments. The state of a call
-- is the database together with the sessions.
pub mod Context
pub mod Principals
pub mod Accounts
pub mod Tokens
pub mod SignUp
pub mod Begin
pub mod Credentials
pub mod Registered
pub mod Finished
pub mod Linked
pub mod Google
pub mod Renewal
mod Tests
use gym_saas_be.Prelude.{
  Bool, true, false, ◌&&◌, not, Option, none, some, [], ◌∷◌, Text, codes, ◌==◌, if◌then◌else◌,
  Unicode,
}
use gym_saas_be.Store.{Uuid, Time}
use gym_saas_be.Errors.{Result, ok, err, Exception, unauthorized}
use gym_saas_be.Entities.{
  AuthProvider, local, google, User, Tables, Db, Transactions, Action, pure, reads, throw_if,
  or_throw, ◌>>=◌, ◌>>◌,
}
use gym_saas_be.Users.{UserPublicProfile, to_public_profile}
use gym_saas_be.Users.Repository.{find_by_id}
use gym_saas_be.Users.UseCases.{find_user_by_email}
use gym_saas_be.Sessions.{SessionTable}
use gym_saas_be.Sessions.Repository.{is_active, revoke_owned}
use gym_saas_be.Sessions.Service.{
  Keys, SessionMetadata, TokenPair, TokenPayload, start, rotate_session,
}

pub record AuthResult : Type 0 where
  pub user : UserPublicProfile
  pub tokens : TokenPair
  pub active_organization_id : Option Uuid

pub record LoginCommand : Type 0 where
  pub email : Text
  pub password : Text
  pub session : SessionMetadata

pub record RegisterCommand : Type 0 where
  pub email : Text
  pub password : Text
  pub name : Text
  pub organization_name : Text
  pub session : SessionMetadata

pub record GoogleProfile : Type 0 where
  pub google_id : Text
  pub email : Text
  pub name : Text

pub record AuthenticatedPrincipal : Type 0 where
  pub user : UserPublicProfile
  pub session_id : Uuid

-- The hasher's `hash` and `compare`, and the verification of a refresh token: its claims, if it was
-- signed with the secret and is not expired.
pub record Verifiers : Type 0 where
  pub hash : Text → Text
  pub compare : Text → Text → Bool
  pub verify : Text → Option TokenPayload

pub record World (t : Tables) (st : SessionTable) : Type 0 where
  pub db : Db t
  pub sessions : st.Store

module _ (t : Tables) (st : SessionTable) where
  abbrev pub on_db : {A : Type 0} → Action (Db t) A → Action (World t st) A
  on_db m w = let (r, db) = m w.db in (r, record w { db = db })

  abbrev pub on_sessions : {A : Type 0} → Action st.Store A → Action (World t st) A
  on_sessions m w = let (r, s) = m w.sessions in (r, record w { sessions = s })

  abbrev pub auth_result : UserPublicProfile → TokenPair → AuthResult
  auth_result user tokens = record { user = user; tokens = tokens; active_organization_id = none }

  abbrev pub is_local : AuthProvider → Bool
  is_local local = true
  is_local google = false

  -- The password hash of a local account; an empty hash counts as none.
  unfoldable pub password_hash_of : Option User → Option Text
  password_hash_of none = none
  password_hash_of (some user) =
      if is_local user.cols.provider then filled user.cols.password_hash else none
    where
      filled : Option Text → Option Text
      filled none = none
      filled (some []) = none
      filled (some (c ∷ s)) = some (c ∷ s)

  -- Whether the password is that of the account.
  unfoldable pub check_password : Verifiers → Text → Option Text → Bool
  check_password v password none = false
  check_password v password (some hash) = v.compare password hash

  abbrev pub invalid_credentials : Exception
  invalid_credentials = unauthorized (codes "Invalid credentials")

  module _ (d : Transactions st.Store) (k : Keys) (u : Unicode) (v : Verifiers) where
    unfoldable pub begin :
        Time → (id family_id : Uuid) → User → SessionMetadata → Action (World t st) AuthResult
    unfolding start to_public_profile
    begin now id family_id user metadata =
        on_sessions (start st d k now id family_id (to_public_profile user) metadata) >>= λ tokens.
        pure (auth_result (to_public_profile user) tokens)

    unfoldable pub login :
        Time → (id family_id : Uuid) → LoginCommand → Action (World t st) AuthResult
    unfolding find_user_by_email password_hash_of check_password begin
    login now id family_id c = reads (λ w. find_user_by_email t u c.email w.db) >>= λ found.
        throw_if (not (check_password v c.password (password_hash_of found))) invalid_credentials
        >> or_throw found invalid_credentials
        >>= λ user. begin now id family_id user c.session

    unfoldable pub refresh :
        Time → (id : Uuid) → Text → SessionMetadata → Action (World t st) AuthResult
    unfolding find_by_id rotate_session to_public_profile
    refresh now id refresh_token metadata =
        or_throw (v.verify refresh_token) (unauthorized (codes "Invalid or expired token"))
        >>= λ payload. reads (λ w. find_by_id t payload.sub w.db) >>= λ found.
            or_throw found (unauthorized (codes "Invalid refresh token")) >>= λ user.
            on_sessions
              (rotate_session st d k now id refresh_token payload (to_public_profile user) metadata)
            >>= λ tokens. pure (auth_result (to_public_profile user) tokens)

    -- Without a token, or with one that does not verify, nothing happens.
    unfoldable pub logout : Time → Option Text → World t st → World t st
    unfolding revoke_owned
    logout now none w = w
    logout now (some []) w = w
    logout now (some (c ∷ s)) w = elim (v.verify (c ∷ s)) [
      | none ↦ w
      | some payload ↦ record w {
        sessions = (revoke_owned st payload.sub payload.session_id now w.sessions).1;
      }
    ]

    -- `JwtStrategy.validate`, for the claims of an access token whose signature was verified.
    unfoldable pub validate_claims :
        Time → TokenPayload → World t st → Result AuthenticatedPrincipal
    unfolding is_active find_by_id to_public_profile
    validate_claims now payload w =
        if is_active st payload.sub payload.session_id now w.sessions
        then elim (find_by_id t payload.sub w.db) [
          | none ↦ err (unauthorized (codes "User no longer exists"))
          | some user ↦
              ok (record { user = to_public_profile user; session_id = payload.session_id })
        ]
        else err (unauthorized (codes "Session is no longer active"))
