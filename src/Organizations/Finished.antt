-- ===== src/Organizations/Finished.antt =====
-- create-organization.use-case.ts: a call ends, and how.
use gym_saas_be.Prelude.{ℕ, ◌≤◌, ◌≡◌, inl, inr, some, Text, arith, Option-cases, trim, Unicode}
use gym_saas_be.Store.{Uuid, Time}
use gym_saas_be.Errors.{Result}
use gym_saas_be.Entities.{Organization, Tables, Db, Transactions}
use gym_saas_be.Organizations.{base_slug, first_free, create_organization}
use gym_saas_be.Organizations.Free.{first_free-enough}
use gym_saas_be.Organizations.Created.{AfterCreate, create_organization_lem}

module _ (t : Tables) where
  -- Creating an organization ends: with some number of turns for the slug, or more, there is a
  -- result. If it is a success, the organization is stored under its trimmed name and a slug that
  -- no live organization had, with the creator as a member in the owners' role, and every row that
  -- was stored before, of any table, is as it was; if it is a failure, the database is as it was.
  pub create_organization_ends :
      (d : Transactions (Db t)) (u : Unicode) (owner_user_id : Uuid) (name : Text) (now : Time)
      (db : Db t)
      → (turns : ℕ) × ((fuel : ℕ)
          → turns ≤ fuel
          → (r : Result Organization) × (db' : Db t) × (create_organization t d u fuel owner_user_id
                name now db
              ≡ some (r, db'))
            × AfterCreate t owner_user_id name now db r db')
  unfolding create_organization
  create_organization_ends d u owner name now db =
      let (turns, enough) = first_free-enough t (base_slug u (trim name)) db in
      (
        turns,
        λ fuel h. elim (Option-cases (create_organization t d u fuel owner name now db)) [
          | inr ((r, db'), q) ↦
              (r, db', q, create_organization_lem t d u fuel owner name now db db' r q)
          | inl n ↦ elim (Option-cases (first_free t fuel (base_slug u (trim name)) 0 db)) [
            | inl none_free ↦ absurd (ground (arith, enough fuel h))
            | inr (slug, q) ↦ absurd (ground arith)
          ]
        ],
      )
