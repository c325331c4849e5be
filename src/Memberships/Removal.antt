-- ===== src/Memberships/Removal.antt =====
-- What removing a member does.
use gym_saas_be.Prelude.{
  ◌≡◌, refl, ◌≢◌, ◌⊎◌, inl, inr, true, false, ◌&&◌, none, some, [], ◌∷◌, arith, Option-cases,
  Bool-cases, ◌==◌, sym, subst, ltb→lt,
}
use gym_saas_be.Store.{Uuid, Time}
use gym_saas_be.Store.Queries.{count-Seen, soft_delete-live, soft_delete-other}
use gym_saas_be.Errors.{Result, ok}
use gym_saas_be.Entities.{Membership, Tables, Db}
use gym_saas_be.Permissions.{members_remove, is_membership_of}
use gym_saas_be.Permissions.Repository.{find_role_summary}
use gym_saas_be.Permissions.Service.{check_permission, require_permission}
use gym_saas_be.Permissions.Granted.{IsPermitted, check_permission_iff}
use gym_saas_be.Memberships.{
  RemoveMemberCommand, find_by_user_and_org, is_last_owner, soft_delete_membership,
  is_active_member, is_membership,
}
use gym_saas_be.Memberships.UseCases.{remove_member}

module _ (t : Tables) where
  -- A removal that goes through.
  pub record IsRemoved (c : RemoveMemberCommand) (now : Time) (db db' : Db t) : Type 0 where
    pub target : Membership
    pub found : find_by_user_and_org t c.target_user_id c.organization_id db ≡ some target
    pub permitted :
        check_permission t c.caller_user_id c.organization_id (members_remove ∷ []) db ≡ true
    pub not_last :
        is_last_owner t
          (find_role_summary t target.cols.role_id db)
          c.organization_id
          target.cols.role_id
          db
        ≡ false
    pub result : db' ≡ soft_delete_membership t target.id now db

  pub remove_member-cases :
      (c : RemoveMemberCommand) (now : Time) (db db' : Db t) (r : Result (Unit {0}))
      → remove_member t c now db ≡ (r, db')
      → (IsRemoved c now db db' × (r ≡ ok tt)) ⊎ ((db' ≡ db) × (r ≢ ok tt))
  unfolding remove_member require_permission
  remove_member-cases c now db db' r e =
      elim (Bool-cases
        (check_permission t c.caller_user_id c.organization_id (members_remove ∷ []) db)) [
          | inr denied ↦ inr (ground arith)
          | inl granted ↦
              elim (Option-cases (find_by_user_and_org t c.target_user_id c.organization_id db)) [
                | inl n ↦ inr (ground arith)
                | inr (target, q) ↦
                    let last =
                      is_last_owner t (find_role_summary t target.cols.role_id db) c.organization_id
                        target.cols.role_id db in
                    elim (Bool-cases last) [
                      | inl l ↦ inr (ground arith)
                      | inr l ↦ inl (
                        record {
                          target = target;
                          found = q;
                          permitted = granted;
                          not_last = l;
                          result = ground arith;
                        },
                        ground arith,
                      )
                    ]
              ]
        ]

  -- The row of a removed membership, and every other row.
  removed_row :
      (id : Uuid) (now : Time) (db : Db t) (i : Uuid) (m : Membership)
      → t.memberships.row (soft_delete_membership t id now db).memberships i ≡ some m
      → m.deleted_at ≡ none
      → (t.memberships.row db.memberships i ≡ some m) × (i ≢ id)
  unfolding soft_delete_membership is_membership
  removed_row id now db i m row live =
      let (before, unmatched, at_i) =
        soft_delete-live t.memberships (is_membership id) now db.memberships i m row live in
      (before, ground arith)

  pub other_row :
      (id : Uuid) (now : Time) (db : Db t) (i : Uuid)
      → i ≢ id
      → t.memberships.row (soft_delete_membership t id now db).memberships i
        ≡ t.memberships.row db.memberships i
  unfolding soft_delete_membership is_membership
  other_row id now db i n =
      soft_delete-other t.memberships (is_membership id) now db.memberships i (λ a e. ground arith)

  not_member_after :
      (u o : Uuid) (target : Membership) (now : Time) (db : Db t)
      → find_by_user_and_org t u o db ≡ some target
      → is_active_member t u o (soft_delete_membership t target.id now db) ≡ false
  unfolding is_active_member find_by_user_and_org is_membership_of
  not_member_after u o target now db e =
      let db' = soft_delete_membership t target.id now db in
      let p = is_membership_of u o in
      elim (Bool-cases (is_active_member t u o db')) [
        | inr f ↦ f
        | inl a ↦
            let (r, row, v) = count-Seen t.memberships p db'.memberships (ltb→lt _ _ a) in
            let (before, n) = removed_row target.id now db r.id r row v.0 in
            let (at_target, vt) = t.memberships.find_one_some p db.memberships target e in
            let matches : same_columns r target = ground (arith, v.1, vt.1) in
            absurd (
              n (
                t.memberships.unique db.memberships r.id target.id r target before at_target
                  (matches, v.0, vt.0)))
      ]
    where
      same_columns : Membership → Membership → Type 0
      same_columns a b =
          (a.cols.user_id == b.cols.user_id && a.cols.organization_id == b.cols.organization_id)
          ≡ true

  -- A removal that succeeds was permitted, and then the user is no active member of the
  -- organization while every other membership is as it was; a removal that fails changes nothing.
  pub remove_member_lem :
      (c : RemoveMemberCommand) (now : Time) (db : Db t)
      → let (result, db') = remove_member t c now db in
        ((result ≡ ok tt)
          × IsPermitted t db c.caller_user_id c.organization_id (members_remove ∷ [])
          × (is_active_member t c.target_user_id c.organization_id db' ≡ false)
          × (target : Membership) × (find_by_user_and_org t c.target_user_id c.organization_id db
              ≡ some target)
          × ((i : Uuid)
              → i ≢ target.id
              → t.memberships.row db'.memberships i ≡ t.memberships.row db.memberships i))
        ⊎ ((result ≢ ok tt) × (db' ≡ db))
  remove_member_lem c now db =
      elim (remove_member-cases c now db (remove_member t c now db).1 (remove_member t c now db).0
        refl) [
          | inr (same, failed) ↦ inr (failed, same)
          | inl (h, done) ↦ inl (
            done,
            (check_permission_iff t db c.caller_user_id c.organization_id (members_remove ∷ [])).0
                h.permitted,
            subst (λ (x : Db t). is_active_member t c.target_user_id c.organization_id x ≡ false)
                (sym h.result)
                (not_member_after c.target_user_id c.organization_id h.target now db h.found),
            h.target,
            h.found,
            λ i n.
                subst
                  (λ (x : Db t).
                    t.memberships.row x.memberships i ≡ t.memberships.row db.memberships i)
                  (sym h.result) (other_row h.target.id now db i n),
          )
        ]
