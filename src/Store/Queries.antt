-- ===== src/Store/Queries.antt =====
-- What the counting queries say of the rows.
use mathlib.Core.List.{Memᴰ}
use gym_saas_be.Prelude.{
  ◌≡◌, ◌≢◌, ◌<◌, Bool, true, false, none, some, List, [], ◌∷◌, arith, length, All, All-mem, any,
  any-elim, any-intro, ◌∙◌, sym, subst, inl, inr, Option-cases, Bool-cases,
}
use native.Mathlib.Decide.{ℕ_discrete}
use gym_saas_be.Store.{Uuid, Time, Stored, Visible, Clash, DistinctIds, Table}

pub mem-length-pos {ℓ} : {A : Type ℓ} {a : A} (xs : List A) → Memᴰ a xs → 0 < length xs
mem-length-pos [] m = elim m [ ]
mem-length-pos (x ∷ xs) m = omega arith

module _ {C : Type 0} {same : C → C → Bool} {partial : Bool} (t : Table same partial) where
  abbrev pub Seen : (Stored C → Bool) → t.Store → Type 0
  Seen p s = (r : Stored C) × (t.row s r.id ≡ some r) × Visible p r

  pub count-pos :
      (p : Stored C → Bool) (s : t.Store) (i : Uuid) (r : Stored C)
      → t.row s i ≡ some r
      → Visible p r
      → 0 < t.count p s
  count-pos p s i r e v =
      omega (arith, t.count_lem p s, mem-length-pos (t.find p s) (t.find_complete p s i r e v))

  first_of_list :
      (p : Stored C → Bool) (s : t.Store) (rs : List (Stored C))
      → All (λ r. (t.row s r.id ≡ some r) × Visible p r) rs
      → 0 < length rs
      → Seen p s
  first_of_list p s [] a h = absurd (omega arith)
  first_of_list p s (r ∷ rs) a h = (r, a.0.0, a.0.1)

  -- A positive count has a row behind it.
  pub count-Seen : (p : Stored C → Bool) (s : t.Store) → 0 < t.count p s → Seen p s
  count-Seen p s h =
      first_of_list p s (t.find p s) (t.find_sound p s) (omega (arith, t.count_lem p s))

  other_of_list :
      (p : Stored C → Bool) (s : t.Store) (i : Uuid) (rs : List (Stored C))
      → All (λ r. (t.row s r.id ≡ some r) × Visible p r) rs
      → DistinctIds rs
      → 1 < length rs
      → (r : Stored C) × (r.id ≢ i) × (t.row s r.id ≡ some r) × Visible p r
  other_of_list p s i [] a d h = absurd (omega arith)
  other_of_list p s i (r ∷ []) a d h = absurd (omega arith)
  other_of_list p s i (r ∷ r' ∷ rs) a d h = elim (ℕ_discrete r.id i) [
    | yes e ↦ (r', (λ e'. d.0.0 (e' ∙ sym e)), a.1.0.0, a.1.0.1)
    | no n ↦ (r, n, a.0.0, a.0.1)
  ]

  -- A count above one has a row besides any given one.
  pub count-other :
      (p : Stored C → Bool) (s : t.Store) (i : Uuid)
      → 1 < t.count p s
      → (r : Stored C) × (r.id ≢ i) × (t.row s r.id ≡ some r) × Visible p r
  count-other p s i h =
      other_of_list p s i (t.find p s) (t.find_sound p s) (t.find_distinct p s)
        (omega (arith, t.count_lem p s))

  -- A query that only one visible row can match finds it.
  pub find_one-only :
      (p : Stored C → Bool) (s : t.Store) (i : Uuid) (r : Stored C)
      → t.row s i ≡ some r
      → Visible p r
      → ((a : Stored C) → t.row s a.id ≡ some a → Visible p a → a.id ≡ i)
      → t.find_one p s ≡ some r
  find_one-only p s i r row v only = elim (Option-cases (t.find_one p s)) [
    | inl n ↦ absurd (ground (arith, t.find_one_none p s i r n row v.0, v.1))
    | inr (a, e) ↦
        let (row_a, va) = t.find_one_some p s a e in
        let moved = subst (λ (j : Uuid). t.row s j ≡ some a) (only a row_a va) row_a in
        ground (arith, moved, row, e)
  ]

  -- So does a query by the primary key.
  pub find_one-id :
      (p : Stored C → Bool) (s : t.Store) (i : Uuid) (r : Stored C)
      → t.row s i ≡ some r
      → Visible p r
      → ((a : Stored C) → p a ≡ true → a.id ≡ i)
      → t.find_one p s ≡ some r
  find_one-id p s i r row v only = find_one-only p s i r row v (λ a row_a va. only a va.1)

  -- And one by the columns of a unique index.
  pub find_one_unique :
      (p : Stored C → Bool) (s : t.Store) (i : Uuid) (r : Stored C)
      → t.row s i ≡ some r
      → Visible p r
      → ((a : Stored C) → Visible p a → Clash same partial a r)
      → t.find_one p s ≡ some r
  find_one_unique p s i r row v clash =
      find_one-only p s i r row v (λ a row_a va. t.unique s a.id i a r row_a row (clash a va))

  -- Of a list of visible rows, some row that satisfies a test.
  any_of_list :
      (p q : Stored C → Bool) (s : t.Store) (rs : List (Stored C))
      → All (λ r. (t.row s r.id ≡ some r) × Visible p r) rs
      → any rs q ≡ true
      → (r : Stored C) × (t.row s r.id ≡ some r) × Visible p r × (q r ≡ true)
  any_of_list p q s rs a h =
      let (r, m, e) = any-elim rs q h in
      let (row, v) = All-mem (λ r. (t.row s r.id ≡ some r) × Visible p r) rs a m in (r, row, v, e)

  pub any-find :
      (p q : Stored C → Bool) (s : t.Store)
      → any (t.find p s) q ≡ true
      → (r : Stored C) × (t.row s r.id ≡ some r) × Visible p r × (q r ≡ true)
  any-find p q s h = any_of_list p q s (t.find p s) (t.find_sound p s) h

  pub find-any :
      (p q : Stored C → Bool) (s : t.Store) (i : Uuid) (r : Stored C)
      → t.row s i ≡ some r
      → Visible p r
      → q r ≡ true
      → any (t.find p s) q ≡ true
  find-any p q s i r row v e = any-intro (t.find p s) q (t.find_complete p s i r row v) e

  -- A row that is live after a soft delete was there before, and was not matched.
  pub soft_delete-live :
      (p : Stored C → Bool) (now : Time) (s : t.Store) (i : Uuid) (r : Stored C)
      → t.row (t.soft_delete p now s) i ≡ some r
      → r.deleted_at ≡ none
      → (t.row s i ≡ some r) × (p r ≡ false) × (r.id ≡ i)
  soft_delete-live p now s i r row live = elim (Option-cases (t.row s i)) [
    | inl n ↦ absurd (ground (arith, t.soft_delete_row p now s i))
    | inr (a, e) ↦ elim (Bool-cases (p a)) [
      | inl y ↦ absurd (ground (arith, t.soft_delete_row p now s i))
      | inr n ↦
          let same : a ≡ r = ground (arith, t.soft_delete_row p now s i) in
          (
            ground arith,
            subst (λ (x : Stored C). p x ≡ false) same n,
            t.row_id s i r (ground arith),
          )
    ]
  ]

  -- A row that it does not match stays as it is.
  pub soft_delete-other :
      (p : Stored C → Bool) (now : Time) (s : t.Store) (i : Uuid)
      → ((a : Stored C) → a.id ≡ i → p a ≡ false)
      → t.row (t.soft_delete p now s) i ≡ t.row s i
  soft_delete-other p now s i h = elim (Option-cases (t.row s i)) [
    | inl n ↦ ground (arith, t.soft_delete_row p now s i)
    | inr (a, e) ↦ ground (arith, t.soft_delete_row p now s i, h a (t.row_id s i a e))
  ]
