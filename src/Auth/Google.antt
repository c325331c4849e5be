-- ===== src/Auth/Google.antt =====
-- auth/application/google-auth.use-case.ts: signing in with a Google profile.
use gym_saas_be.Prelude.{
  ◌+◌, ◌<◌, ◌≡◌, ◌≢◌, ◌⊎◌, inl, inr, true, arith, Unicode, subst, sym, ap, refl,
}
use gym_saas_be.Store.{Uuid, Time}
use gym_saas_be.Errors.{ended, Result, ok, err}
use gym_saas_be.Entities.{User, Tables, Db, Transactions, reads, ◌>>=◌}
use gym_saas_be.Users.{to_public_profile}
use gym_saas_be.Users.Repository.{find_by_google_id}
use gym_saas_be.Sessions.{SessionTable}
use gym_saas_be.Sessions.Repository.{is_active}
use gym_saas_be.Sessions.Service.{Keys, SessionMetadata}
use gym_saas_be.Auth.{World, Verifiers, AuthResult, GoogleProfile, begin}
use gym_saas_be.Auth.Begin.{begin_ok, begin_err}
use gym_saas_be.Auth.SignUp.{google_user, google_auth}
use gym_saas_be.Auth.Linked.{IsLinked, google_user_lem}

module _ (t : Tables) (st : SessionTable) (d : Transactions st.Store) (k : Keys) (u : Unicode)
    (v : Verifiers) where
  -- The user of the profile, and a session of theirs.
  pub record IsSignedIn (now : Time) (id : Uuid) (profile : GoogleProfile) (w w' : World t st)
      (r : AuthResult) : Type 0 where
    pub user : User
    pub linked : IsLinked t u profile user w.db w'.db
    pub answer : r.user ≡ to_public_profile user
    pub active :
        (now' : Time)
        → now' < now + k.refresh_ttl_ms
        → is_active st user.id id now' w'.sessions ≡ true

  abbrev pub AfterGoogle :
      Time → Uuid → GoogleProfile → World t st → Result AuthResult × World t st → Type 0
  AfterGoogle now id profile w (ok r, w') = IsSignedIn now id profile w w' r
  AfterGoogle now id profile w (err e, w') =
      (w'.sessions ≡ w.sessions)
      × ((w'.db ≡ w.db) ⊎ ((user : User) × IsLinked t u profile user w.db w'.db))

  signed_in-AfterGoogle :
      (now : Time) (id family_id : Uuid) (profile : GoogleProfile) (metadata : SessionMetadata)
      (user : User) (db : Db t) (w : World t st)
      → id ≢ 0
      → IsLinked t u profile user w.db db
      → AfterGoogle now id profile w
          (begin t st d k u v now id family_id user metadata (record w { db = db }))
  signed_in-AfterGoogle now id family_id profile metadata user db w hid linked =
      let w1 : World t st = record w { db = db } in
      elim (ended (begin t st d k u v now id family_id user metadata w1)) [
        | inl (r, w2, q) ↦
            let (answer, active, same) =
              begin_ok t st d k u v now id family_id user metadata w1 w2 r hid q in
            subst (AfterGoogle now id profile w) (sym q) (record {
              user = user;
              linked = subst (IsLinked t u profile user w.db) (sym same) linked;
              answer = answer;
              active = active;
            })
        | inr (x, w2, q) ↦
            let same = begin_err t st d k u v now id family_id user metadata w1 w2 x q in
            subst (AfterGoogle now id profile w) (sym q) (
              ap (λ (y : World t st). y.sessions) same,
              inr (
                user,
                subst (λ (y : World t st). IsLinked t u profile user w.db y.db) (sym same) linked,
              ),
            )
      ]

  -- Signing in with Google under a new session id: if it succeeds, the session is active for the
  -- account that the Google id finds from then on, which it had found, or the email had, or which
  -- is new, and no other account has changed; if it fails, no session was opened, and at most that
  -- account was linked or made.
  pub google_auth_lem :
      (now : Time) (id family_id : Uuid) (profile : GoogleProfile) (metadata : SessionMetadata)
      (w : World t st)
      → id ≢ 0
      → AfterGoogle now id profile w (google_auth t st d k u v now id family_id profile metadata w)
  unfolding google_auth
  google_auth_lem now id family_id profile metadata w hid =
      let find = reads (find_by_google_id t profile.google_id) >>= google_user t u profile in
      elim (ended (find w.db)) [
        | inl (user, db, q) ↦
            let after : google_auth t st d k u v now id family_id profile metadata w
                ≡ begin t st d k u v now id family_id user metadata (record w { db = db }) =
              ground arith in
            subst (AfterGoogle now id profile w) (sym after) (
              signed_in-AfterGoogle now id family_id profile metadata user db w hid
                (google_user_lem t u profile w.db (ok user, db) q))
        | inr (x, db, q) ↦
            let after : google_auth t st d k u v now id family_id profile metadata w
                ≡ (err x, record w { db = db }) =
              ground arith in
            subst (AfterGoogle now id profile w) (sym after)
              (refl, inl (google_user_lem t u profile w.db (err x, db) q))
      ]
