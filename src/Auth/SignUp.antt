-- ===== src/Auth/SignUp.antt =====
-- modules/auth/application: register.use-case.ts and google-auth.use-case.ts, which may make a new
-- user, with an organization of their own or linked to a Google account.
mod Tests
use gym_saas_be.Prelude.{ℕ, Option, none, some, Unicode}
use gym_saas_be.Store.{Uuid, Time}
use gym_saas_be.Errors.{Result, ok, err}
use gym_saas_be.Entities.{
  local, google, User, Organization, Tables, Db, Transactions, Action, pure, reads, ◌>>=◌,
}
use gym_saas_be.Users.Repository.{find_by_google_id, save_user}
use gym_saas_be.Users.UseCases.{CreateUserCommand, find_user_by_email, create_user}
use gym_saas_be.Organizations.{create_organization}
use gym_saas_be.Sessions.{SessionTable}
use gym_saas_be.Sessions.Service.{Keys, SessionMetadata}
use gym_saas_be.Auth.{World, Verifiers, AuthResult, RegisterCommand, GoogleProfile, on_db, begin}

-- The answer names the organization that was made.
abbrev pub with_active : {W : Type 0} → Uuid → Result AuthResult × W → Result AuthResult × W
with_active i (err e, w) = (err e, w)
with_active i (ok r, w) = (ok (record r { active_organization_id = some i }), w)

abbrev pub google_account : GoogleProfile → CreateUserCommand
google_account profile = record {
  email = profile.email;
  name = profile.name;
  provider = google;
  password_hash = none;
  google_id = some profile.google_id;
}

abbrev pub with_google_id : GoogleProfile → User → User
with_google_id profile user = record user {
  cols = record (user.cols) { google_id = some profile.google_id };
}

module _ (t : Tables) (u : Unicode) where
  -- The user of a Google profile: known by its id, linked by its email, or new.
  unfoldable pub link : GoogleProfile → Option User → Action (Db t) User
  unfolding save_user create_user
  link profile (some user) = save_user t (with_google_id profile user)
  link profile none = create_user t u (google_account profile)

  unfoldable pub google_user : GoogleProfile → Option User → Action (Db t) User
  unfolding link find_user_by_email
  google_user profile (some user) = pure user
  google_user profile none = reads (find_user_by_email t u profile.email) >>= link profile

module _ (t : Tables) (st : SessionTable) (d : Transactions st.Store) (k : Keys) (u : Unicode)
    (v : Verifiers) where
  abbrev pub new_account : RegisterCommand → CreateUserCommand
  new_account c = record {
    email = c.email;
    name = c.name;
    provider = local;
    password_hash = some (v.hash c.password);
    google_id = none;
  }

  unfoldable pub answer_with :
      Time
      → (id family_id : Uuid) → RegisterCommand
      → User
      → World t st
      → Result Organization × Db t
      → Result AuthResult × World t st
  unfolding begin
  answer_with now id family_id c user w (err e, db) = (err e, record w { db = db })
  answer_with now id family_id c user w (ok organization, db) =
      with_active organization.id
        (begin t st d k u v now id family_id user c.session (record w { db = db }))

  -- `RegisterUseCase.execute` once the user is stored; out of fuel for the slug, `none`.
  unfoldable pub found_organization :
      Transactions (Db t)
      → ℕ
      → Time
      → (id family_id : Uuid) → RegisterCommand
      → User
      → World t st
      → Option (Result AuthResult × World t st)
  unfolding create_organization answer_with
  found_organization td fuel now id family_id c user w =
      elim (create_organization t td u fuel user.id c.organization_name now w.db) [
        | none ↦ none
        | some o ↦ some (answer_with now id family_id c user w o)
      ]

  unfoldable pub register :
      Transactions (Db t)
      → ℕ
      → Time
      → (id family_id : Uuid) → RegisterCommand
      → World t st
      → Option (Result AuthResult × World t st)
  unfolding create_user found_organization
  register td fuel now id family_id c w =
      let (r, db) = create_user t u (new_account c) w.db in
      elim r [
        | err e ↦ some (err e, record w { db = db })
        | ok user ↦ found_organization td fuel now id family_id c user (record w { db = db })
      ]

  unfoldable pub google_auth :
      Time
      → (id family_id : Uuid) → GoogleProfile
      → SessionMetadata
      → Action (World t st) AuthResult
  unfolding google_user find_by_google_id begin
  google_auth now id family_id profile metadata =
      on_db t st (reads (find_by_google_id t profile.google_id) >>= google_user t u profile)
      >>= λ user. begin t st d k u v now id family_id user metadata
