-- ===== src/Organizations/Listed.antt =====
-- list-my-organizations.use-case.ts and get-onboarding-status.use-case.ts: what a user is shown.
use gym_saas_be.Prelude.{
  ◌≡◌, refl, ◌⊎◌, ◌↔◌, inl, inr, true, Option, none, some, List, [], ◌∷◌, arith, Option-cases,
  length, All-mem, subst, sym, ◌==◌,
}
use mathlib.Core.List.{Memᴰ}
use gym_saas_be.Store.{Uuid}
use gym_saas_be.Entities.{Membership, Tables, Db}
use gym_saas_be.Permissions.Repository.{find_role_summary}
use gym_saas_be.Memberships.{find_by_user, is_of_user}
use gym_saas_be.Organizations.{find_by_id}
use gym_saas_be.Organizations.UseCases.{
  MyOrganization, organizations_of, list_my_organizations, get_onboarding_status,
}

empty_of : (l : List MyOrganization) (x : MyOrganization) → (length l == 0) ≡ true → ¬ Memᴰ x l
empty_of [] x e p = elim p [ ]
empty_of (y ∷ l) x e p = ground arith

nothing_in :
    (l : List MyOrganization) → ((x : MyOrganization) → ¬ Memᴰ x l) → (length l == 0) ≡ true
nothing_in [] h = refl
nothing_in (y ∷ l) h = absurd (h y (Memᴰ.head refl))

module _ (t : Tables) where
  -- The organization and the role of a membership, where both are live.
  abbrev pub IsShown : Db t → Membership → MyOrganization → Type 0
  IsShown db m x =
      (find_by_id t m.cols.organization_id db ≡ some x.organization)
      × (find_role_summary t m.cols.role_id db ≡ some x.role)

  -- An organization of the user, by a live membership.
  pub record IsMine (user_id : Uuid) (db : Db t) (x : MyOrganization) : Type 0 where
    pub member : Membership
    pub member_row : t.memberships.row db.memberships member.id ≡ some member
    pub member_live : member.deleted_at ≡ none
    pub of_user : member.cols.user_id ≡ user_id
    pub shown : IsShown db member x

  first_shown :
      (m : Membership) (ms : List Membership) (db : Db t)
      → ((y : MyOrganization) × IsShown db m y
          × ((x : MyOrganization) → IsShown db m x → x ≡ y)
          × (organizations_of t (m ∷ ms) db ≡ y ∷ organizations_of t ms db))
        ⊎ (((x : MyOrganization) → ¬ IsShown db m x)
            × (organizations_of t (m ∷ ms) db ≡ organizations_of t ms db))
  unfolding organizations_of
  first_shown m ms db = elim (Option-cases (find_by_id t m.cols.organization_id db)) [
    | inl n ↦ inr ((λ x s. ground (arith, n, s.0)), ground arith)
    | inr (o, q) ↦ elim (Option-cases (find_role_summary t m.cols.role_id db)) [
      | inl n ↦ inr ((λ x s. ground (arith, n, s.1)), ground arith)
      | inr (role, r) ↦ inl (
        record { organization = o; role = role },
        (q, r),
        (λ x s. ground (arith, s.0, s.1)),
        ground arith,
      )
    ]
  ]

  organizations_of_iff :
      (x : MyOrganization) (ms : List Membership) (db : Db t)
      → Memᴰ x (organizations_of t ms db) ↔ ((m : Membership) × Memᴰ m ms × IsShown db m x)
  unfolding organizations_of
  organizations_of_iff x [] db = ((λ p. elim p [ ]), λ (m, p, sh). elim p [ ])
  organizations_of_iff x (m ∷ ms) db =
      let (forth, back) = organizations_of_iff x ms db in
      elim (first_shown m ms db) [
        | inl (y, s, only, e) ↦ (
          (λ p. elim (subst (Memᴰ x) e p) [
            | Memᴰ.head same ↦ (m, Memᴰ.head refl, subst (IsShown db m) (sym same) s)
            | Memᴰ.tail q ↦ let (m', p', s') = forth q in (m', Memᴰ.tail p', s')
          ]),
          λ (m', p', s'). subst (Memᴰ x) (sym e) (elim p' [
            | Memᴰ.head same ↦
                Memᴰ.head (only x (subst (λ (z : Membership). IsShown db z x) same s'))
            | Memᴰ.tail q ↦ Memᴰ.tail (back (m', q, s'))
          ]),
        )
        | inr (nothing, e) ↦ (
          (λ p. let (m', p', s') = forth (subst (Memᴰ x) e p) in (m', Memᴰ.tail p', s')),
          λ (m', p', s'). subst (Memᴰ x) (sym e) (elim p' [
            | Memᴰ.head same ↦
                absurd (nothing x (subst (λ (z : Membership). IsShown db z x) same s'))
            | Memᴰ.tail q ↦ back (m', q, s')
          ]),
        )
      ]

  list_my_organizations_iff :
      (user_id : Uuid) (db : Db t) (x : MyOrganization)
      → Memᴰ x (list_my_organizations t user_id db) ↔ IsMine user_id db x
  unfolding list_my_organizations find_by_user is_of_user
  list_my_organizations_iff user_id db x =
      let found = organizations_of_iff x (find_by_user t user_id db) db in
      (
        (λ p.
            let (m, mem, s) = found.0 p in
            let (row, vis) =
              All-mem _ (find_by_user t user_id db)
                (t.memberships.find_sound (is_of_user user_id) db.memberships) mem in
            record {
              member = m;
              member_row = row;
              member_live = vis.0;
              of_user = ground (arith, vis.1);
              shown = s;
            }),
        λ h. found.1 (
          h.member,
          t.memberships.find_complete (is_of_user user_id) db.memberships h.member.id h.member
              h.member_row (h.member_live, ground (arith, h.of_user)),
          h.shown,
        ),
      )

  -- The list has exactly the live organizations in which the user has a live membership with a live
  -- role, and the user has to go through the onboarding exactly if there is none.
  pub get_onboarding_status_iff :
      (user_id : Uuid) (active : Option Uuid) (db : Db t)
      → ((x : MyOrganization) → Memᴰ x (list_my_organizations t user_id db) ↔ IsMine user_id db x)
        × ((get_onboarding_status t user_id active db).needs_onboarding ≡ true
            ↔ ((x : MyOrganization) → ¬ IsMine user_id db x))
  unfolding get_onboarding_status
  get_onboarding_status_iff user_id active db =
      let listed = list_my_organizations_iff user_id db in
      (
        listed,
        (
          (λ e x h. empty_of (list_my_organizations t user_id db) x e ((listed x).1 h)),
          λ none_mine.
              nothing_in (list_my_organizations t user_id db) (λ x p. none_mine x ((listed x).0 p)),
        ),
      )
