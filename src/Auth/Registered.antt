-- ===== src/Auth/Registered.antt =====
-- auth/application/register.use-case.ts: what registering leaves, with and without success.
use gym_saas_be.Prelude.{
  ℕ, ◌+◌, ◌<◌, ◌≡◌, refl, ◌≢◌, ◌⊎◌, inl, inr, true, some, arith, Option-cases, Unicode, subst, sym,
  ap,
}
use gym_saas_be.Store.{Uuid, Time}
use gym_saas_be.Errors.{ended, Result, ok, err}
use gym_saas_be.Entities.{User, Organization, Tables, Db, Transactions}
use gym_saas_be.Users.{to_public_profile}
use gym_saas_be.Users.UseCases.{create_user}
use gym_saas_be.Organizations.{create_organization}
use gym_saas_be.Organizations.Created.{IsCreated, AfterCreate, create_organization_lem}
use gym_saas_be.Sessions.{SessionTable}
use gym_saas_be.Sessions.Repository.{is_active}
use gym_saas_be.Sessions.Service.{Keys}
use gym_saas_be.Auth.{World, Verifiers, AuthResult, RegisterCommand, begin}
use gym_saas_be.Auth.Accounts.{IsRegistered, create_user_lem}
use gym_saas_be.Auth.Begin.{begin_ok, begin_err}
use gym_saas_be.Auth.SignUp.{new_account, with_active, answer_with, found_organization, register}

module _ (t : Tables) (st : SessionTable) (d : Transactions st.Store) (k : Keys) (u : Unicode)
    (v : Verifiers) where
  -- The user and an organization of their own are stored, and the answer has a session of that
  -- user.
  pub record IsSignedUp (now : Time) (id : Uuid) (c : RegisterCommand) (user : User) (db1 : Db t)
      (w' : World t st) (r : AuthResult) : Type 0 where
    pub organization : Organization
    pub created : IsCreated t user.id c.organization_name now organization db1 w'.db
    pub profile : r.user ≡ to_public_profile user
    pub active_organization : r.active_organization_id ≡ some organization.id
    pub active :
        (now' : Time)
        → now' < now + k.refresh_ttl_ms
        → is_active st user.id id now' w'.sessions ≡ true

  -- Nobody is signed in; the user is stored, and perhaps the organization.
  pub record IsLeftBehind (now : Time) (c : RegisterCommand) (user : User) (db1 : Db t)
      (w w' : World t st) : Type 0 where
    pub organization :
        (w'.db ≡ db1)
        ⊎ ((o : Organization) × IsCreated t user.id c.organization_name now o db1 w'.db)
    pub same_sessions : w'.sessions ≡ w.sessions

  -- What follows once the user is stored.
  abbrev pub AfterUser :
      Time
      → Uuid
      → RegisterCommand
      → User
      → Db t
      → World t st
      → Result AuthResult × World t st
      → Type 0
  AfterUser now id c user db1 w (ok r, w') = IsSignedUp now id c user db1 w' r
  AfterUser now id c user db1 w (err e, w') = IsLeftBehind now c user db1 w w'

  abbrev pub Registered :
      Time → Uuid → RegisterCommand → World t st → Result AuthResult × World t st → Type 0
  Registered now id c w o =
      (user : User) × (db1 : Db t) × IsRegistered t u (new_account t st d k u v c) user w.db db1
      × AfterUser now id c user db1 w o

  abbrev pub AfterRegister :
      Time → Uuid → RegisterCommand → World t st → Result AuthResult × World t st → Type 0
  AfterRegister now id c w (ok r, w') = Registered now id c w (ok r, w')
  AfterRegister now id c w (err e, w') = (w' ≡ w) ⊎ Registered now id c w (err e, w')

  answer_with-AfterUser :
      (now : Time) (id family_id : Uuid) (c : RegisterCommand) (user : User) (db1 db2 : Db t)
      (w : World t st) (r : Result Organization)
      → id ≢ 0
      → AfterCreate t user.id c.organization_name now db1 r db2
      → AfterUser now id c user db1 w
          (answer_with t st d k u v now id family_id c user (record w { db = db1 }) (r, db2))
  unfolding answer_with
  answer_with-AfterUser now id family_id c user db1 db2 w (err x) hid a = record {
    organization = inl a;
    same_sessions = refl;
  }
  answer_with-AfterUser now id family_id c user db1 db2 w (ok o) hid a =
      let w2 : World t st = record w { db = db2 } in
      elim (ended (begin t st d k u v now id family_id user c.session w2)) [
        | inl (r, w3, q) ↦
            let (profile, active, same) =
              begin_ok t st d k u v now id family_id user c.session w2 w3 r hid q in
            subst
              (λ (x : Result AuthResult × World t st).
                AfterUser now id c user db1 w (with_active o.id x))
              (sym q)
              (record {
                organization = o;
                created =
                    subst (λ (x : Db t). IsCreated t user.id c.organization_name now o db1 x)
                      (sym same) a;
                profile = profile;
                active_organization = refl;
                active = active;
              })
        | inr (x, w3, q) ↦
            let same = begin_err t st d k u v now id family_id user c.session w2 w3 x q in
            subst
              (λ (x : Result AuthResult × World t st).
                AfterUser now id c user db1 w (with_active o.id x))
              (sym q)
              (subst (λ (y : World t st). IsLeftBehind now c user db1 w y) (sym same)
                (record { organization = inr (o, a); same_sessions = refl }))
      ]

  found_organization-AfterUser :
      (td : Transactions (Db t)) (fuel : ℕ) (now : Time) (id family_id : Uuid) (c : RegisterCommand)
      (user : User) (db1 : Db t) (w : World t st) (o : Result AuthResult × World t st)
      → id ≢ 0
      → found_organization t st d k u v td fuel now id family_id c user (record w { db = db1 })
        ≡ some o
      → AfterUser now id c user db1 w o
  unfolding found_organization
  found_organization-AfterUser td fuel now id family_id c user db1 w o hid e =
      elim (Option-cases (create_organization t td u fuel user.id c.organization_name now db1)) [
        | inl n ↦ absurd (ground arith)
        | inr ((r, db2), q) ↦
            let w1 : World t st = record w { db = db1 } in
            let same : answer_with t st d k u v now id family_id c user w1 (r, db2) ≡ o =
              ground arith in
            subst (AfterUser now id c user db1 w) same (
              answer_with-AfterUser now id family_id c user db1 db2 w r hid
                (create_organization_lem t td u fuel user.id c.organization_name now db1 db2 r q))
      ]

  Registered-AfterRegister :
      (now : Time) (id : Uuid) (c : RegisterCommand) (w : World t st)
      (o : Result AuthResult × World t st)
      → Registered now id c w o
      → AfterRegister now id c w o
  Registered-AfterRegister now id c w (ok r, w') a = a
  Registered-AfterRegister now id c w (err x, w') a = inr a

  -- What a call leaves that has a result.
  pub register_lem :
      (td : Transactions (Db t)) (fuel : ℕ) (now : Time) (id family_id : Uuid) (c : RegisterCommand)
      (w : World t st) (o : Result AuthResult × World t st)
      → id ≢ 0
      → register t st d k u v td fuel now id family_id c w ≡ some o
      → AfterRegister now id c w o
  unfolding register
  register_lem td fuel now id family_id c w o hid e =
      elim (ended (create_user t u (new_account t st d k u v c) w.db)) [
        | inr (x, db1, q) ↦
            let same = create_user_lem t u (new_account t st d k u v c) w.db db1 (err x) q in
            let after : (err x, record w { db = db1 }) ≡ o = ground arith in
            subst (AfterRegister now id c w) after
              (inl (ap (λ (y : Db t). record w { db = y }) same))
        | inl (user, db1, q) ↦
            let known = create_user_lem t u (new_account t st d k u v c) w.db db1 (ok user) q in
            let after =
              found_organization-AfterUser td fuel now id family_id c user db1 w o hid
                (ground arith) in
            Registered-AfterRegister now id c w o (user, db1, known, after)
      ]
