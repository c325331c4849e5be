-- ===== src/Auth/Credentials.antt =====
-- Passwords: what logging in does.
use gym_saas_be.Prelude.{
  ◌+◌, ◌<◌, ◌≡◌, refl, ◌≢◌, inl, inr, true, Option, none, some, [], ◌∷◌, Text, arith, Option-cases,
  Bool-cases, Unicode, subst,
}
use gym_saas_be.Store.{Uuid, Time}
use gym_saas_be.Errors.{Result, ok, err}
use gym_saas_be.Entities.{User, local, Tables, Transactions}
use gym_saas_be.Users.{to_public_profile}
use gym_saas_be.Users.UseCases.{find_user_by_email}
use gym_saas_be.Sessions.{SessionTable}
use gym_saas_be.Sessions.Repository.{is_active}
use gym_saas_be.Sessions.Service.{Keys}
use gym_saas_be.Auth.Begin.{begin_ok, begin_err}
use gym_saas_be.Auth.{
  World, Verifiers, LoginCommand, AuthResult, login, password_hash_of, check_password,
}

module _ (t : Tables) (st : SessionTable) (d : Transactions st.Store) (k : Keys) (u : Unicode)
    (v : Verifiers) where
  -- The password is that of the local account with this email, whose profile the answer has, and a
  -- session of its user was opened.
  pub record IsLoggedIn (now : Time) (id : Uuid) (c : LoginCommand) (w w' : World t st)
      (r : AuthResult) : Type 0 where
    pub user : User
    pub known : find_user_by_email t u c.email w.db ≡ some user
    pub hash : Text
    pub is_local : user.cols.provider ≡ local
    pub has_hash : user.cols.password_hash ≡ some hash
    pub hash_filled : hash ≢ []
    pub matches : v.compare c.password hash ≡ true
    pub profile : r.user ≡ to_public_profile user
    pub active :
        (now' : Time)
        → now' < now + k.refresh_ttl_ms
        → is_active st user.id id now' w'.sessions ≡ true
    pub same_db : w'.db ≡ w.db

  abbrev pub AfterLogin :
      Time → Uuid → LoginCommand → World t st → Result AuthResult → World t st → Type 0
  AfterLogin now id c w (ok r) w' = IsLoggedIn now id c w w' r
  AfterLogin now id c w (err e) w' = w' ≡ w

  local_hash :
      (user : User) (hash : Text)
      → password_hash_of t st (some user) ≡ some hash
      → (user.cols.provider ≡ local) × (user.cols.password_hash ≡ some hash) × (hash ≢ [])
  unfolding password_hash_of
  local_hash user hash e = elim (Option-cases user.cols.password_hash) [
    | inl n ↦ absurd (ground arith)
    | inr ([], q) ↦ absurd (ground arith)
    | inr (c ∷ s, q) ↦ (ground arith, ground arith, λ z. ground arith)
  ]

  matched_hash :
      (password : Text) (hash : Option Text)
      → check_password t st v password hash ≡ true
      → (h : Text) × (hash ≡ some h) × (v.compare password h ≡ true)
  unfolding check_password
  matched_hash password none e = cc
  matched_hash password (some h) e = (h, refl, e)

  -- Logging in under a new session id: if it succeeds, the user with this email has a local
  -- account with a password hash, which is not empty and with which the password compares, and the session is active for that user until its lifetime is over; if it
  -- fails, nothing has changed.
  pub login_lem :
      (now : Time) (id family_id : Uuid) (c : LoginCommand) (w w' : World t st)
      (r : Result AuthResult)
      → id ≢ 0
      → login t st d k u v now id family_id c w ≡ (r, w')
      → AfterLogin now id c w r w'
  unfolding login
  login_lem now id family_id c w w' (err x) hid e =
      elim (Bool-cases (
        check_password t st v c.password
          (password_hash_of t st (find_user_by_email t u c.email w.db)))) [
            | inr n ↦ ground arith
            | inl m ↦ elim (Option-cases (find_user_by_email t u c.email w.db)) [
              | inl n ↦ ground arith
              | inr (user, q) ↦
                  begin_err t st d k u v now id family_id user c.session w w' x (ground arith)
            ]
          ]
  login_lem now id family_id c w w' (ok r) hid e =
      elim (Bool-cases (
        check_password t st v c.password
          (password_hash_of t st (find_user_by_email t u c.email w.db)))) [
            | inr n ↦ absurd (ground arith)
            | inl m ↦ elim (Option-cases (find_user_by_email t u c.email w.db)) [
              | inl n ↦ absurd (ground arith)
              | inr (user, q) ↦
                  let (h, ph, ok_hash) =
                    matched_hash c.password
                      (password_hash_of t st (find_user_by_email t u c.email w.db)) m in
                  let (is_local, has_hash, hash_filled) =
                    local_hash user h
                      (subst (λ (o : Option User). password_hash_of t st o ≡ some h) q ph) in
                  let (profile, active, same) =
                    begin_ok t st d k u v now id family_id user c.session w w' r hid
                      (ground arith) in
                  record {
                    user = user;
                    known = q;
                    hash = h;
                    is_local = is_local;
                    has_hash = has_hash;
                    hash_filled = hash_filled;
                    matches = ok_hash;
                    profile = profile;
                    active = active;
                    same_db = same;
                  }
            ]
          ]
