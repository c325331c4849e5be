-- ===== src/Auth/Begin.antt =====
-- auth/application: the end of every way to sign in, the session that is opened.
use gym_saas_be.Prelude.{◌+◌, ◌<◌, ◌≡◌, ◌≢◌, inl, inr, true, arith, Option-cases, Unicode, subst}
use gym_saas_be.Store.{Uuid, Time}
use gym_saas_be.Errors.{ended, ok, err, Exception}
use gym_saas_be.Entities.{User, Tables, Transactions}
use gym_saas_be.Users.{UserPublicProfile, to_public_profile}
use gym_saas_be.Sessions.{SessionTable}
use gym_saas_be.Sessions.Repository.{is_active, save}
use gym_saas_be.Sessions.Service.{Keys, SessionMetadata, start, build_session, with_hash}
use gym_saas_be.Sessions.Start.{start_lem}
use gym_saas_be.Auth.{World, Verifiers, AuthResult, begin}

module _ (t : Tables) (st : SessionTable) (d : Transactions st.Store) (k : Keys) (u : Unicode)
    (v : Verifiers) where
  start_err :
      (now : Time) (id family_id : Uuid) (profile : UserPublicProfile) (metadata : SessionMetadata)
      (s s' : st.Store) (x : Exception)
      → start st d k now id family_id profile metadata s ≡ (err x, s')
      → s' ≡ s
  unfolding start save
  start_err now id family_id profile metadata s s' x e =
      let session = build_session k now id profile.id family_id metadata in
      let tokens =
        k.issue_tokens
          (record { sub = profile.id; email = profile.email; session_id = session.id }) in
      elim (Option-cases (st.save (with_hash (k.digest tokens.refresh_token) session) s)) [
        | inl n ↦ ground arith
        | inr ((a, b), q) ↦ absurd (ground arith)
      ]

  -- Opening the session of a user that fails changes nothing.
  pub begin_err :
      (now : Time) (id family_id : Uuid) (user : User) (metadata : SessionMetadata)
      (w w' : World t st) (x : Exception)
      → begin t st d k u v now id family_id user metadata w ≡ (err x, w')
      → w' ≡ w
  unfolding begin to_public_profile
  begin_err now id family_id user metadata w w' x e =
      elim (ended (start st d k now id family_id (to_public_profile user) metadata w.sessions)) [
        | inl (tokens, s, q) ↦ absurd (ground arith)
        | inr (y, s, q) ↦
            let same =
              start_err now id family_id (to_public_profile user) metadata w.sessions s y q in
            ground (arith, same)
      ]

  -- A session that was opened is active until its lifetime is over, and the database is as it was.
  pub begin_ok :
      (now : Time) (id family_id : Uuid) (user : User) (metadata : SessionMetadata)
      (w w' : World t st) (r : AuthResult)
      → id ≢ 0
      → begin t st d k u v now id family_id user metadata w ≡ (ok r, w')
      → (r.user ≡ to_public_profile user)
        × ((now' : Time)
            → now' < now + k.refresh_ttl_ms
            → is_active st user.id id now' w'.sessions ≡ true)
        × (w'.db ≡ w.db)
  unfolding begin to_public_profile
  begin_ok now id family_id user metadata w w' r hid e =
      elim (ended (start st d k now id family_id (to_public_profile user) metadata w.sessions)) [
        | inr (y, s, q) ↦ absurd (ground arith)
        | inl (tokens, s, q) ↦ (
          ground arith,
          (λ now' h.
              subst (λ (x : st.Store). is_active st user.id id now' x ≡ true) (ground arith)
                (start_lem st d k now now' id family_id (to_public_profile user) metadata w.sessions
                  s tokens hid q h).0),
          ground arith,
        )
      ]
