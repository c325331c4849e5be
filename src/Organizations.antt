-- ===== src/Organizations.antt =====
-- Organizations: modules/organizations (the repository and the unit of work over TypeORM, and the
-- use cases).
pub mod UseCases
pub mod Free
pub mod Created
pub mod Finished
pub mod Deleted
pub mod Listed
pub mod Saved
pub mod Updated
mod Tests
use gym_saas_be.Prelude.{
  ℕ, zero, suc, ◌+◌, Bool, true, false, Option, none, some, List, [], ◌∷◌, ◌++◌, Text, codes,
  text_eq, ◌==◌, if◌then◌else◌, is_some, trim, Unicode, print,
}
use gym_saas_be.Store.{Uuid, Time, BaseEntity}
use gym_saas_be.Errors.{Result, plain_error}
use gym_saas_be.Entities.{
  Organization, Membership, Role, Tables, Db, Transactions, Action, pure, reads, or_throw, saving,
  ◌>>=◌, ◌>>◌,
}
use gym_saas_be.Slugs.{slugify, hyphen}
use gym_saas_be.Memberships.{owner_role_key, save_membership}

-- The `where` clauses of the repository, and of the unit of work.
unfoldable pub is_organization : Uuid → Organization → Bool
is_organization id o = o.id == id

unfoldable pub has_slug : Text → Organization → Bool
has_slug slug o = text_eq o.cols.slug slug

unfoldable pub has_key : Text → Role → Bool
has_key key r = text_eq r.cols.key key

-- A row that `new` makes and `save` has not seen yet.
abbrev pub unsaved : BaseEntity
unsaved = record {
  id = 0;
  created_at = 0;
  updated_at = none;
  deleted_at = none;
  created_by = none;
  updated_by = none;
}

abbrev pub trial_ms : ℕ
trial_ms = 604800000

abbrev pub new_organization : Text → Text → Time → Organization
new_organization name slug now = record {
  base = unsaved;
  cols = record {
    name = name;
    slug = slug;
    trial_ends_at = some (now + trial_ms);
    primary_color = none;
    secondary_color = none;
    font_family = none;
    logo_url = none;
    banner_url = none;
  };
}

abbrev pub new_membership : (user_id organization_id role_id : Uuid) → Membership
new_membership user_id organization_id role_id = record {
  base = unsaved;
  cols = record { user_id = user_id; organization_id = organization_id; role_id = role_id };
}

-- `slugify(name) || FALLBACK_SLUG`.
unfoldable pub base_slug : Unicode → Text → Text
unfolding slugify
base_slug u name = or_fallback (slugify u name)
  where
    or_fallback : Text → Text
    or_fallback [] = codes "org"
    or_fallback (c ∷ s) = c ∷ s

-- The candidates in the order in which they are tried: `base`, `base-2`, `base-3`.
unfoldable pub candidate : Text → ℕ → Text
unfolding print
candidate base zero = base
candidate base (suc n) = base ++ (hyphen ∷ print (n + 2))

module _ (t : Tables) where
  unfoldable pub find_by_id : Uuid → Db t → Option Organization
  unfolding is_organization
  find_by_id id db = t.organizations.find_one (is_organization id) db.organizations

  unfoldable pub find_by_slug : Text → Db t → Option Organization
  unfolding has_slug
  find_by_slug slug db = t.organizations.find_one (has_slug slug) db.organizations

  unfoldable pub save_organization : Organization → Action (Db t) Organization
  save_organization o =
      saving t.organizations (λ db. db.organizations) (λ os db. record db { organizations = os }) o

  unfoldable pub soft_delete_organization : Uuid → Time → Db t → Db t
  unfolding is_organization
  soft_delete_organization id now db = record db {
    organizations = t.organizations.soft_delete (is_organization id) now db.organizations;
  }

  -- The loop that looks for a free slug, from the n-th candidate on; `none` when the fuel is spent.
  unfoldable pub first_free : ℕ → Text → ℕ → Db t → Option Text
  unfolding find_by_slug candidate
  first_free zero base n db = none
  first_free (suc fuel) base n db =
      let later = first_free fuel base (suc n) db in
      if is_some (find_by_slug (candidate base n) db) then later else some (candidate base n)

  -- `TypeOrmOrgUnitOfWork.createOrganizationWithOwner`: the transaction's body, and the whole.
  unfoldable pub create_body : Organization → Uuid → Action (Db t) Organization
  unfolding has_key save_organization save_membership
  create_body organization owner_user_id =
      reads (λ db. t.roles.find_one (has_key owner_role_key) db.roles) >>= λ found.
      or_throw found (plain_error (codes "The \"owner\" role is not seeded in the role catalog"))
      >>= λ owner_role. save_organization organization >>= λ saved_org.
          save_membership t (new_membership owner_user_id saved_org.id owner_role.id)
          >> pure saved_org

  unfoldable pub create_with_owner :
      Transactions (Db t) → Organization → Uuid → Action (Db t) Organization
  unfolding create_body
  create_with_owner d organization owner_user_id =
      d.transaction Organization (create_body organization owner_user_id)

  -- `CreateOrganizationUseCase.execute`; out of fuel, `none`.
  unfoldable pub create_organization :
      Transactions (Db t)
      → Unicode
      → ℕ
      → Uuid
      → Text
      → Time
      → Db t
      → Option (Result Organization × Db t)
  unfolding create_with_owner first_free base_slug trim
  create_organization d u fuel owner_user_id name now db =
      let trimmed = trim name in
      elim (first_free fuel (base_slug u trimmed) 0 db) [
        | none ↦ none
        | some slug ↦
            some (create_with_owner d (new_organization trimmed slug now) owner_user_id db)
      ]
