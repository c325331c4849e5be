-- ===== src/Auth/Finished.antt =====
-- auth/application/register.use-case.ts: a call ends, and how.
use gym_saas_be.Prelude.{ℕ, ◌≤◌, ◌≡◌, ◌≢◌, inl, inr, some, arith, Unicode}
use gym_saas_be.Store.{Uuid, Time}
use gym_saas_be.Errors.{ended, Result, ok, err}
use gym_saas_be.Entities.{User, Organization, Tables, Db, Transactions}
use gym_saas_be.Users.UseCases.{create_user}
use gym_saas_be.Organizations.{create_organization}
use gym_saas_be.Sessions.{SessionTable}
use gym_saas_be.Sessions.Service.{Keys}
use gym_saas_be.Auth.{World, Verifiers, AuthResult, RegisterCommand}
use gym_saas_be.Auth.SignUp.{new_account, answer_with, found_organization, register}
use gym_saas_be.Organizations.Finished.{create_organization_ends}
use gym_saas_be.Auth.Registered.{AfterRegister, register_lem}

module _ (t : Tables) (st : SessionTable) (d : Transactions st.Store) (k : Keys) (u : Unicode)
    (v : Verifiers) where
  registered_with :
      (td : Transactions (Db t)) (fuel : ℕ) (now : Time) (id family_id : Uuid) (c : RegisterCommand)
      (w : World t st) (user : User) (db1 db2 : Db t) (r : Result Organization)
      → create_user t u (new_account t st d k u v c) w.db ≡ (ok user, db1)
      → create_organization t td u fuel user.id c.organization_name now db1 ≡ some (r, db2)
      → register t st d k u v td fuel now id family_id c w
        ≡ some (answer_with t st d k u v now id family_id c user (record w { db = db1 }) (r, db2))
  unfolding register found_organization
  registered_with td fuel now id family_id c w user db1 db2 r q q2 = ground arith

  -- Registering under a new session id ends: with some number of turns for the slug, or more, there
  -- is a result. If it is a success, the user and an organization of their own are stored and the
  -- session is active; if it is a failure, nobody is signed in, and nothing has changed unless the
  -- user was stored.
  pub register_ends :
      (td : Transactions (Db t)) (now : Time) (id family_id : Uuid) (c : RegisterCommand)
      (w : World t st)
      → id ≢ 0
      → (turns : ℕ) × ((fuel : ℕ)
          → turns ≤ fuel
          → (o : Result AuthResult × World t st) × (register t st d k u v td fuel now id family_id c
                w
              ≡ some o)
            × AfterRegister t st d k u v now id c w o)
  unfolding register found_organization
  register_ends td now id family_id c w hid =
      elim (ended (create_user t u (new_account t st d k u v c) w.db)) [
        | inr (x, db1, q) ↦ (
          0,
          λ fuel h.
              let end : register t st d k u v td fuel now id family_id c w
                  ≡ some (err x, record w { db = db1 }) =
                ground arith in
              (_, end, register_lem t st d k u v td fuel now id family_id c w _ hid end),
        )
        | inl (user, db1, q) ↦
            let (turns, ends) =
              create_organization_ends t td u user.id c.organization_name now db1 in
            (
              turns,
              λ fuel h.
                  let (r, db2, q2, after) = ends fuel h in
                  let end = registered_with td fuel now id family_id c w user db1 db2 r q q2 in
                  (_, end, register_lem t st d k u v td fuel now id family_id c w _ hid end),
            )
      ]
