-- ===== src/Auth/Renewal.antt =====
-- A login that is followed by a refresh with the token that it handed out.
use gym_saas_be.Prelude.{
  ◌+◌, ◌<◌, ◌≡◌, refl, ◌≢◌, ◌⊎◌, inl, inr, true, none, some, Text, arith, Option-cases, Bool-cases,
  Unicode, subst, sym,
}
use gym_saas_be.Store.{Uuid, Time}
use gym_saas_be.Store.Queries.{find_one-id}
use gym_saas_be.Errors.{ended, Result, ok, err, Exception}
use gym_saas_be.Entities.{User, Tables, Db, Transactions, Session}
use gym_saas_be.Users.{UserPublicProfile, to_public_profile}
use gym_saas_be.Users.Repository.{find_by_id, find_by_email, is_user}
use gym_saas_be.Users.UseCases.{find_user_by_email}
use gym_saas_be.Sessions.{SessionTable}
use gym_saas_be.Sessions.Repository.{is_active, rotate, save}
use gym_saas_be.Sessions.Service.{
  Keys, SessionMetadata, TokenPair, TokenPayload, start, rotate_session, build_session, with_hash,
  conclude,
}
use gym_saas_be.Sessions.Exchange.{IsPresented}
use gym_saas_be.Sessions.Progress.{IsQueryFailure, rotate-Progress, IsReplaced-is_active}
use gym_saas_be.Auth.{
  World, Verifiers, LoginCommand, AuthResult, login, refresh, password_hash_of, check_password,
  begin, auth_result,
}
use gym_saas_be.Sessions.Start.{start_lem}

module _ (t : Tables) (st : SessionTable) (d : Transactions st.Store) (k : Keys) (u : Unicode)
    (v : Verifiers) where
  -- The end of a refresh: new tokens for an active session of the user, or a query that failed.
  pub AfterRefresh :
      Time
      → (id user_id : Uuid) → UserPublicProfile
      → World t st
      → Result AuthResult × World t st
      → Type 0
  AfterRefresh now id user_id profile w (ok r, w') =
      (r.user ≡ profile)
      × ((now' : Time)
          → now' < now + k.refresh_ttl_ms
          → is_active st user_id id now' w'.sessions ≡ true)
  AfterRefresh now id user_id profile w (err x, w') = IsQueryFailure x × (w' ≡ w)

  -- Exchanging the token of a session that is presented and open.
  rotate_session-ends :
      (now : Time) (id : Uuid) (token : Text) (payload : TokenPayload) (user : UserPublicProfile)
      (metadata : SessionMetadata) (s : st.Store) (current : Session)
      → payload.session_id ≢ 0
      → id ≢ 0
      → id ≢ payload.session_id
      → IsPresented st s payload.session_id user.id (k.digest token) now current
      → current.cols.revoked_at ≡ none
      → ((tokens : TokenPair) × (s' : st.Store) × (rotate_session st d k now id token payload user
              metadata s
            ≡ (ok tokens, s'))
          × ((now' : Time)
              → now' < now + k.refresh_ttl_ms
              → is_active st user.id id now' s' ≡ true))
        ⊎ ((x : Exception) × (rotate_session st d k now id token payload user metadata s
              ≡ (err x, s))
            × IsQueryFailure x)
  unfolding rotate_session conclude build_session
  rotate_session-ends now id token payload user metadata s current hc hr hne p is_open =
      let replacement = build_session k now id user.id 0 metadata in
      let tokens = k.issue_tokens (record { sub = user.id; email = user.email; session_id = id }) in
      let stored = with_hash (k.digest tokens.refresh_token) replacement in
      let o = rotate st d payload.session_id user.id (k.digest token) stored now s in
      elim (rotate-Progress st d s payload.session_id user.id (k.digest token) stored current now hc
        hr hne p is_open) [
          | inl (e, r) ↦ inl (
            tokens,
            o.1,
            ground arith,
            λ now' h.
                IsReplaced-is_active st s o.1 current stored now now' user.id r refl refl refl h,
          )
          | inr (x, e, q, same) ↦ inr (x, ground arith, q)
        ]

  -- The user, the session and the answer of a login.
  pub login_parts :
      (now : Time) (id family_id : Uuid) (c : LoginCommand) (w w' : World t st) (r : AuthResult)
      → login t st d k u v now id family_id c w ≡ (ok r, w')
      → (user : User) × (find_user_by_email t u c.email w.db ≡ some user)
        × (start st d k now id family_id (to_public_profile user) c.session w.sessions
            ≡ (ok r.tokens, w'.sessions))
        × (r.user ≡ to_public_profile user)
        × (w'.db ≡ w.db)
  unfolding login begin
  login_parts now id family_id c w w' r e =
      elim (Bool-cases (
        check_password t st v c.password
          (password_hash_of t st (find_user_by_email t u c.email w.db)))) [
            | inr n ↦ absurd (ground arith)
            | inl m ↦ elim (Option-cases (find_user_by_email t u c.email w.db)) [
              | inl n ↦ absurd (ground arith)
              | inr (user, q) ↦
                  elim (ended
                    (start st d k now id family_id (to_public_profile user) c.session w.sessions)) [
                      | inr (x, s, q') ↦ absurd (ground arith)
                      | inl (tokens, s, q') ↦ (user, q, ground arith, ground arith, ground arith)
                    ]
            ]
          ]

  -- The tokens of a session are signed for its user and its id.
  pub start_tokens :
      (now : Time) (id family_id : Uuid) (user : UserPublicProfile) (metadata : SessionMetadata)
      (s s' : st.Store) (tokens : TokenPair)
      → start st d k now id family_id user metadata s ≡ (ok tokens, s')
      → tokens ≡ k.issue_tokens (record { sub = user.id; email = user.email; session_id = id })
  unfolding start build_session save
  start_tokens now id family_id user metadata s s' tokens e =
      let issued = k.issue_tokens (record { sub = user.id; email = user.email; session_id = id }) in
      let hashed =
        with_hash (k.digest issued.refresh_token)
          (build_session k now id user.id family_id metadata) in
      elim (Option-cases (st.save hashed s)) [
        | inl n ↦ absurd (ground arith)
        | inr ((a, b), q) ↦ ground arith
      ]

  pub found_by_id :
      (email : Text) (user : User) (db : Db t)
      → find_user_by_email t u email db ≡ some user
      → find_by_id t user.id db ≡ some user
  unfolding find_user_by_email find_by_email find_by_id is_user
  found_by_id email user db e =
      let (row, vis) = t.users.find_one_some _ db.users user e in
      find_one-id t.users (is_user user.id) db.users user.id user row (vis.0, ground arith)
        (λ a h. ground arith)

  refresh_ok :
      (now : Time) (id : Uuid) (token : Text) (metadata : SessionMetadata) (payload : TokenPayload)
      (user : User) (tokens : TokenPair) (s' : st.Store) (w : World t st)
      → v.verify token ≡ some payload
      → find_by_id t payload.sub w.db ≡ some user
      → rotate_session st d k now id token payload (to_public_profile user) metadata w.sessions
        ≡ (ok tokens, s')
      → refresh t st d k u v now id token metadata w
        ≡ (ok (auth_result t st (to_public_profile user) tokens), record w { sessions = s' })
  unfolding refresh
  refresh_ok now id token metadata payload user tokens s' w e q h = ground arith

  refresh_err :
      (now : Time) (id : Uuid) (token : Text) (metadata : SessionMetadata) (payload : TokenPayload)
      (user : User) (x : Exception) (w : World t st)
      → v.verify token ≡ some payload
      → find_by_id t payload.sub w.db ≡ some user
      → rotate_session st d k now id token payload (to_public_profile user) metadata w.sessions
        ≡ (err x, w.sessions)
      → refresh t st d k u v now id token metadata w ≡ (err x, w)
  unfolding refresh
  refresh_err now id token metadata payload user x w e q h = ground arith

  -- A login and a refresh with the token that it gave, before the session's lifetime is over: the
  -- answer is the same user, with new tokens for a session that is active for a lifetime of its
  -- own, unless a query fails, and then nothing has changed. A token verifies as what it was issued
  -- for.
  pub login-refresh :
      (agree : (p : TokenPayload) → v.verify (k.issue_tokens p).refresh_token ≡ some p)
      (now now' : Time) (id family_id id' : Uuid) (c : LoginCommand) (metadata : SessionMetadata)
      (w w' : World t st) (r : AuthResult)
      → id ≢ 0
      → id' ≢ 0
      → id' ≢ id
      → login t st d k u v now id family_id c w ≡ (ok r, w')
      → now' < now + k.refresh_ttl_ms
      → AfterRefresh now' id' r.user.id r.user w'
          (refresh t st d k u v now' id' r.tokens.refresh_token metadata w')
  unfolding AfterRefresh to_public_profile
  login-refresh agree now now' id family_id id' c metadata w w' r hid hid' hne e h =
      let (user, q, started, profile, same) = login_parts now id family_id c w w' r e in
      let profile' = to_public_profile user in
      let payload : TokenPayload = record {
        sub = user.id;
        email = user.cols.email;
        session_id = id;
      } in
      let issued =
        start_tokens now id family_id profile' c.session w.sessions w'.sessions r.tokens started in
      let verified : v.verify r.tokens.refresh_token ≡ some payload = rw issued (agree payload) in
      let found : find_by_id t user.id w'.db ≡ some user =
        rw same (found_by_id c.email user w.db q) in
      let (active, current, presented, is_open) =
        start_lem st d k now now' id family_id profile' c.session w.sessions w'.sessions r.tokens
          hid started h in
      elim (rotate_session-ends now' id' r.tokens.refresh_token payload profile' metadata
        w'.sessions current hid hid' hne presented is_open) [
          | inl (tokens, s', e', active') ↦
              subst (AfterRefresh now' id' r.user.id r.user w')
                (sym (
                  refresh_ok now' id' r.tokens.refresh_token metadata payload user tokens s' w'
                    verified found e'))
                (sym profile, rw profile active')
          | inr (x, e', failed) ↦
              subst (AfterRefresh now' id' r.user.id r.user w')
                (sym (
                  refresh_err now' id' r.tokens.refresh_token metadata payload user x w' verified
                    found e'))
                (failed, refl)
        ]
