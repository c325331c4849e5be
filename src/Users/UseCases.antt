-- ===== src/Users/UseCases.antt =====
-- modules/users: the email value object and the use cases that read and write users; the guard and
-- the seeder of modules/platform-admin.
use gym_saas_be.Prelude.{
  ℕ, Bool, true, false, Option, none, some, List, [], ◌∷◌, Text, codes, ◌==◌, if◌then◌else◌,
  is_some, trim, Unicode, filter_by, length, ltb, map,
}
use gym_saas_be.Store.{Uuid}
use gym_saas_be.Errors.{Result, ok, err, duplicate_email, user_not_found, forbidden}
use gym_saas_be.Entities.{
  AuthProvider, User, Tables, Db, Action, pure, reads, throw_if, or_throw, ◌>>=◌, ◌>>◌,
}
use gym_saas_be.Users.Repository.{find_by_id, find_by_email, save_user}
use gym_saas_be.Organizations.{unsaved}
use gym_saas_be.Organizations.UseCases.{Field, patch_name}

-- `Email.normalize`.
unfoldable pub normalize : Unicode → Text → Text
unfolding trim
normalize u raw = u.to_lower (trim raw)

pub record CreateUserCommand : Type 0 where
  pub email : Text
  pub name : Text
  pub provider : AuthProvider
  pub password_hash : Option Text
  pub google_id : Option Text

abbrev pub new_user : Text → CreateUserCommand → User
new_user email c = record {
  base = unsaved;
  cols = record {
    email = email;
    name = trim c.name;
    password_hash = c.password_hash;
    google_id = c.google_id;
    provider = c.provider;
    avatar_url = none;
    is_platform_admin = false;
  };
}

abbrev pub renamed : Text → User → User
renamed name user = record user { cols = record (user.cols) { name = name } }

abbrev pub promoted : User → User
promoted user = record user { cols = record (user.cols) { is_platform_admin = true } }

-- `split(',')`.
abbrev pub in_front : ℕ → List Text → List Text
in_front c [] = (c ∷ []) ∷ []
in_front c (word ∷ words) = (c ∷ word) ∷ words

unfoldable pub split_commas : Text → List Text
split_commas [] = [] ∷ []
split_commas (c ∷ s) = let rest = split_commas s in if c == 44 then [] ∷ rest else in_front c rest

unfoldable pub parse_emails : Unicode → Text → List Text
unfolding split_commas normalize
parse_emails u raw =
    filter_by (λ email. ltb 0 (length email)) (map (normalize u) (split_commas raw))

module _ (t : Tables) where
  unfoldable pub find_user_by_email : Unicode → Text → Db t → Option User
  unfolding find_by_email normalize
  find_user_by_email u email db = find_by_email t (normalize u email) db

  unfoldable pub create_user : Unicode → CreateUserCommand → Action (Db t) User
  unfolding find_by_email save_user normalize
  create_user u c = reads (find_by_email t (normalize u c.email)) >>= λ existing.
      throw_if (is_some existing) (duplicate_email (normalize u c.email))
      >> save_user t (new_user (normalize u c.email) c)

  unfoldable pub update_profile : Uuid → Field Text → Action (Db t) User
  unfolding find_by_id save_user patch_name
  update_profile user_id name = reads (find_by_id t user_id) >>= λ found.
      or_throw found (user_not_found user_id) >>= λ user.
      patch_name name user.cols.name >>= λ new_name. save_user t (renamed new_name user)

  abbrev pub is_admin : Option User → Bool
  is_admin none = false
  is_admin (some user) = user.cols.is_platform_admin

  -- `PlatformAdminGuard.canActivate`, with the id of the request's principal.
  unfoldable pub platform_admin_guard : Option Uuid → Db t → Result (Unit {0})
  unfolding find_by_id
  platform_admin_guard none db = err (forbidden (codes "Authentication required"))
  platform_admin_guard (some user_id) db =
      if user_id == 0
      then err (forbidden (codes "Authentication required"))
      else if is_admin (find_by_id t user_id db)
      then ok tt
      else err (forbidden (codes "Platform admin access required"))

  unfoldable pub promote : Option User → Action (Db t) (Unit {0})
  unfolding save_user
  promote none = pure tt
  promote (some user) =
      if user.cols.is_platform_admin then pure tt else save_user t (promoted user) >> pure tt

  -- The seeder's loop over the emails of `PLATFORM_ADMIN_EMAILS`.
  unfoldable pub promote_all : List Text → Action (Db t) (Unit {0})
  unfolding find_by_email promote
  promote_all [] = pure tt
  promote_all (email ∷ rest) =
      let others = promote_all rest in
      reads (find_by_email t email) >>= λ user. promote user >> others

  unfoldable pub seed_platform_admins : Unicode → Text → Action (Db t) (Unit {0})
  unfolding promote_all parse_emails
  seed_platform_admins u emails = promote_all (parse_emails u emails)
