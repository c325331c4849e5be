-- ===== src/Auth/Linked.antt =====
-- auth/application/google-auth.use-case.ts: the account that a Google profile signs in to.
use gym_saas_be.Prelude.{
  ◌≡◌, ◌≢◌, ◌⊎◌, inl, inr, true, Option, none, some, Text, text_eq_iff, arith, Option-cases,
  Unicode, subst, sym, ap, refl, ◌∙◌,
}
use native.Mathlib.Decide.{ℕ_discrete}
use gym_saas_be.Store.{Uuid}
use gym_saas_be.Store.Queries.{find_one-only}
use gym_saas_be.Errors.{ended, Result, ok, err, query_failed}
use gym_saas_be.Entities.{User, UserColumns, Tables, Db, reads, ◌>>=◌}
use gym_saas_be.Users.Repository.{
  find_by_email, has_email, find_by_google_id, has_google_id, is_text, save_user,
}
use gym_saas_be.Users.UseCases.{find_user_by_email, create_user, normalize}
use gym_saas_be.Auth.{GoogleProfile}
use gym_saas_be.Auth.Accounts.{IsRegistered, create_user_lem}
use gym_saas_be.Auth.SignUp.{google_account, with_google_id, link, google_user}

id_of :
    (google_id : Text) (user : User)
    → has_google_id google_id user ≡ true
    → user.cols.google_id ≡ some google_id
unfolding has_google_id
id_of google_id user e = elim (Option-cases user.cols.google_id) [
  | inl n ↦ absurd (ground arith)
  | inr (x, q) ↦
      q
      ∙ ap (λ (y : Text). some y)
          ((text_eq_iff _ _).0 (subst (λ (o : Option Text). is_text o google_id ≡ true) q e))
]

has_id :
    (google_id : Text) (user : User)
    → user.cols.google_id ≡ some google_id
    → has_google_id google_id user ≡ true
unfolding has_google_id
has_id google_id user e =
    subst (λ (o : Option Text). is_text o google_id ≡ true) (sym e) ((text_eq_iff _ _).1 refl)

module _ (t : Tables) (u : Unicode) where
  -- An account found by its id, or linked by its email, or new.
  abbrev pub IsOrigin : GoogleProfile → User → Db t → Db t → Type 0
  IsOrigin profile user db db' =
      ((find_by_google_id t profile.google_id db ≡ some user) × (db' ≡ db))
      ⊎ (find_by_google_id t profile.google_id db ≡ none)
        × (((a : User) × (find_user_by_email t u profile.email db ≡ some a)
              × (user.id ≡ a.id)
              × (user.cols ≡ record (a.cols) { google_id = some profile.google_id }))
            ⊎ IsRegistered t u (google_account profile) user db db')

  -- The account is the one that the Google id finds afterwards, and no other account has changed.
  pub record IsLinked (profile : GoogleProfile) (user : User) (db db' : Db t) : Type 0 where
    pub origin : IsOrigin profile user db db'
    pub found : find_by_google_id t profile.google_id db' ≡ some user
    pub others : (i : Uuid) → i ≢ user.id → t.users.row db'.users i ≡ t.users.row db.users i

  abbrev pub AfterLink : GoogleProfile → Db t → Result User × Db t → Type 0
  AfterLink profile db (ok user, db') = IsLinked profile user db db'
  AfterLink profile db (err e, db') = db' ≡ db

  found_by_google_id :
      (google_id : Text) (user : User) (db db' : Db t)
      → find_by_google_id t google_id db ≡ none
      → t.users.row db'.users user.id ≡ some user
      → user.deleted_at ≡ none
      → user.cols.google_id ≡ some google_id
      → ((i : Uuid) → i ≢ user.id → t.users.row db'.users i ≡ t.users.row db.users i)
      → find_by_google_id t google_id db' ≡ some user
  unfolding find_by_google_id
  found_by_google_id google_id user db db' unknown row live same others =
      find_one-only t.users (has_google_id google_id) db'.users user.id user row
        (live, has_id google_id user same)
        (λ a row_a v. elim (ℕ_discrete a.id user.id) [
          | yes e ↦ e
          | no n ↦
              let kept = others a.id n in
              let missed =
                t.users.find_one_none (has_google_id google_id) db.users a.id a unknown in
              absurd (ground (arith, missed, kept, row_a, v.0, v.1))
        ])

  linked-IsLinked :
      (profile : GoogleProfile) (a user : User) (users : t.users.Store) (db : Db t)
      → find_by_google_id t profile.google_id db ≡ none
      → find_user_by_email t u profile.email db ≡ some a
      → t.users.save (with_google_id profile a) db.users ≡ some (user, users)
      → IsLinked profile user db (record db { users = users })
  unfolding find_user_by_email find_by_email
  linked-IsLinked profile a user users db unknown known e =
      let next = with_google_id profile a in
      let (row_a, v) =
        t.users.find_one_some (has_email (normalize u profile.email)) db.users a known in
      let cols = t.users.save_cols next user db.users users e in
      let live = t.users.save_deleted_at next user db.users users e in
      let set : a.id ≢ 0 = λ z. ground (arith, t.users.row_zero db.users, row_a, z) in
      let same = t.users.save_id next user db.users users e set in
      let others : (i : Uuid) → i ≢ user.id → t.users.row users i ≡ t.users.row db.users i =
        λ i other. ground (arith, t.users.save_row next user db.users users i e) in
      let row : t.users.row users user.id ≡ some user =
        ground (arith, t.users.save_row next user db.users users user.id e) in
      record {
        origin = inr (unknown, inl (a, known, same, cols));
        found =
            found_by_google_id profile.google_id user db (record db { users = users }) unknown row
              (live ∙ v.0) (ap (λ (x : UserColumns). x.google_id) cols) others;
        others = others;
      }

  registered-IsLinked :
      (profile : GoogleProfile) (user : User) (db db' : Db t)
      → find_by_google_id t profile.google_id db ≡ none
      → IsRegistered t u (google_account profile) user db db'
      → IsLinked profile user db db'
  registered-IsLinked profile user db db' unknown r = record {
    origin = inr (unknown, inr r);
    found =
        found_by_google_id profile.google_id user db db' unknown r.row r.live
          (ap (λ (x : UserColumns). x.google_id) r.cols) r.others;
    others = r.others;
  }

  -- The account of a profile: if there is one, it is linked; if not, nothing has changed.
  pub google_user_lem :
      (profile : GoogleProfile) (db : Db t) (o : Result User × Db t)
      → (reads (find_by_google_id t profile.google_id) >>= google_user t u profile) db ≡ o
      → AfterLink profile db o
  unfolding google_user link save_user
  google_user_lem profile db o e = elim (Option-cases (find_by_google_id t profile.google_id db)) [
    | inr (user, q) ↦
        let after : (ok user, db) ≡ o = ground arith in
        subst (AfterLink profile db) after
          (record { origin = inl (q, refl); found = q; others = λ i other. refl })
    | inl unknown ↦ elim (Option-cases (find_user_by_email t u profile.email db)) [
      | inr (a, q) ↦ elim (Option-cases (t.users.save (with_google_id profile a) db.users)) [
        | inl n ↦
            let next = with_google_id profile a in
            let after : (err (query_failed (t.users.save_error next db.users)), db) ≡ o =
              ground arith in
            subst (AfterLink profile db) after refl
        | inr ((user, users), q2) ↦
            let after : (ok user, record db { users = users }) ≡ o = ground arith in
            subst (AfterLink profile db) after
              (linked-IsLinked profile a user users db unknown q q2)
      ]
      | inl n ↦ elim (ended (create_user t u (google_account profile) db)) [
        | inl (user, db', q) ↦
            let after : (ok user, db') ≡ o = ground arith in
            subst (AfterLink profile db) after (
              registered-IsLinked profile user db db' unknown
                (create_user_lem t u (google_account profile) db db' (ok user) q))
        | inr (x, db', q) ↦
            let after : (err x, db') ≡ o = ground arith in
            subst (AfterLink profile db) after
              (create_user_lem t u (google_account profile) db db' (err x) q)
      ]
    ]
  ]
