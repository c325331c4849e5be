-- ===== src/Auth/Accounts.antt =====
-- Accounts: what creating a user leaves in the database.
use gym_saas_be.Prelude.{
  ◌≡◌, refl, ◌≢◌, inl, inr, none, some, Text, text_eq_iff, arith, Option-cases, Unicode, sym, ◌∙◌,
  subst, trim,
}
use gym_saas_be.Store.{Uuid}
use gym_saas_be.Store.Queries.{find_one_unique}
use gym_saas_be.Errors.{Result, ok, err}
use gym_saas_be.Entities.{User, Tables, Db}
use gym_saas_be.Users.Repository.{find_by_email, has_email, save_user}
use gym_saas_be.Users.UseCases.{
  CreateUserCommand, normalize, new_user, create_user, find_user_by_email,
}

module _ (t : Tables) (u : Unicode) where
  -- The user is stored under the normal form of the email, which nobody had, and is found by any
  -- spelling of it; users stored before are as they were.
  pub record IsRegistered (c : CreateUserCommand) (user : User) (db db' : Db t) : Type 0 where
    pub email_free : find_by_email t (normalize u c.email) db ≡ none
    pub email : user.cols.email ≡ normalize u c.email
    pub name : user.cols.name ≡ trim c.name
    pub cols : user.cols ≡ (new_user (normalize u c.email) c).cols
    pub live : user.deleted_at ≡ none
    pub row : t.users.row db'.users user.id ≡ some user
    pub found :
        (raw : Text)
        → normalize u raw ≡ normalize u c.email
        → find_user_by_email t u raw db' ≡ some user
    pub users_kept :
        (i : Uuid) (a : User) → t.users.row db.users i ≡ some a → t.users.row db'.users i ≡ some a
    pub others : (i : Uuid) → i ≢ user.id → t.users.row db'.users i ≡ t.users.row db.users i

  abbrev pub AfterCreateUser : CreateUserCommand → Db t → Result User → Db t → Type 0
  AfterCreateUser c db (ok user) db' = IsRegistered c user db db'
  AfterCreateUser c db (err e) db' = db' ≡ db

  found_by_email :
      (email : Text) (user : User) (s : t.users.Store)
      → t.users.row s user.id ≡ some user
      → user.deleted_at ≡ none
      → user.cols.email ≡ email
      → t.users.find_one (has_email email) s ≡ some user
  unfolding has_email
  found_by_email email user s row live same =
      find_one_unique t.users (has_email email) s user.id user row (live, (text_eq_iff _ _).1 same)
        (λ a v. (text_eq_iff _ _).1 ((text_eq_iff _ _).0 v.1 ∙ sym same))

  saved-IsRegistered :
      (c : CreateUserCommand) (user : User) (users : t.users.Store) (db : Db t)
      → find_by_email t (normalize u c.email) db ≡ none
      → t.users.save (new_user (normalize u c.email) c) db.users ≡ some (user, users)
      → IsRegistered c user db (record db { users = users })
  unfolding find_user_by_email find_by_email
  saved-IsRegistered c user users db free e =
      let cols = t.users.save_cols _ user db.users users e in
      let live = t.users.save_deleted_at _ user db.users users e in
      let (set, unused) = t.users.save_new _ user db.users users e refl in
      let email : user.cols.email ≡ normalize u c.email = rw cols refl in
      let row : t.users.row users user.id ≡ some user =
        ground (arith, t.users.save_row _ user db.users users user.id e) in
      record {
        email_free = free;
        email = email;
        name = rw cols refl;
        cols = cols;
        live = live;
        row = row;
        found = λ raw same. found_by_email (normalize u raw) user users row live (email ∙ sym same);
        users_kept = λ i a r. ground (arith, r, unused, t.users.save_row _ user db.users users i e);
        others = λ i other. ground (arith, t.users.save_row _ user db.users users i e);
      }

  -- Creating a user: if it succeeds, the user is stored under the normal form of the email, which
  -- no live user had, and is found by every spelling of it; if it fails, nothing has changed.
  pub create_user_lem :
      (c : CreateUserCommand) (db db' : Db t) (r : Result User)
      → create_user t u c db ≡ (r, db')
      → AfterCreateUser c db r db'
  unfolding create_user save_user
  create_user_lem c db db' (err x) e =
      elim (Option-cases (find_by_email t (normalize u c.email) db)) [
        | inr (known, q) ↦ ground arith
        | inl free ↦
            elim (Option-cases (t.users.save (new_user (normalize u c.email) c) db.users)) [
              | inl n ↦ ground arith
              | inr ((saved, users), q) ↦ absurd (ground arith)
            ]
      ]
  create_user_lem c db db' (ok user) e =
      elim (Option-cases (find_by_email t (normalize u c.email) db)) [
        | inr (known, q) ↦ absurd (ground arith)
        | inl free ↦
            elim (Option-cases (t.users.save (new_user (normalize u c.email) c) db.users)) [
              | inl n ↦ absurd (ground arith)
              | inr ((saved, users), q) ↦
                  let same : (saved ≡ user) × (record db { users = users } ≡ db') = ground arith in
                  subst (λ (x : Db t). IsRegistered c user db x) (same.1)
                    (saved-IsRegistered c user users db free (
                      subst
                        (λ (x : User).
                          t.users.save (new_user (normalize u c.email) c) db.users
                          ≡ some (x, users))
                        (same.0) q))
            ]
      ]
