-- ===== src/Users/Repository.antt =====
-- modules/users/infrastructure/typeorm-user.repository.ts, and the use case that reads by id.
use gym_saas_be.Prelude.{Bool, false, Option, none, some, Text, text_eq, ◌==◌}
use gym_saas_be.Store.{Uuid}
use gym_saas_be.Entities.{User, Tables, Db, Action, saving}

unfoldable pub is_user : Uuid → User → Bool
is_user id u = u.id == id

unfoldable pub has_email : Text → User → Bool
has_email email u = text_eq u.cols.email email

abbrev pub is_text : Option Text → Text → Bool
is_text none x = false
is_text (some y) x = text_eq y x

unfoldable pub has_google_id : Text → User → Bool
has_google_id google_id u = is_text u.cols.google_id google_id

module _ (t : Tables) where
  unfoldable pub find_by_id : Uuid → Db t → Option User
  unfolding is_user
  find_by_id id db = t.users.find_one (is_user id) db.users

  unfoldable pub find_by_email : Text → Db t → Option User
  unfolding has_email
  find_by_email email db = t.users.find_one (has_email email) db.users

  unfoldable pub find_by_google_id : Text → Db t → Option User
  unfolding has_google_id
  find_by_google_id google_id db = t.users.find_one (has_google_id google_id) db.users

  unfoldable pub save_user : User → Action (Db t) User
  save_user user = saving t.users (λ db. db.users) (λ users db. record db { users = users }) user
