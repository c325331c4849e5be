-- ===== src/Organizations/Free.antt =====
-- The loop that derives a unique slug: its turns, and the candidate that it ends with.
use gym_saas_be.Prelude.{
  ℕ, zero, suc, ◌+◌, ◌≤◌, ◌<◌, ◌≡◌, refl, inl, inr, true, false, Option, none, some, List, [], ◌∷◌,
  ◌++◌, Text, text_eq_iff, arith, length, is_some, Bool-cases, Option-cases, print, read,
  read-print, ap, ◌∙◌, sym, subst,
}
use mathlib.Core.List.{Memᴰ}
use gym_saas_be.Entities.{Organization, Tables, Db}
use gym_saas_be.Slugs.{hyphen}
use gym_saas_be.Organizations.{candidate, find_by_slug, first_free, has_slug}

abbrev drop : ℕ → Text → Text
drop zero s = s
drop (suc n) [] = []
drop (suc n) (c ∷ s) = drop n s

drop-append : (s : Text) (c : ℕ) (r : Text) → drop (suc (length s)) (s ++ (c ∷ r)) ≡ r
drop-append [] c r = refl
drop-append (d ∷ s) c r = drop-append s c r

-- The number at the end of a slug, and the sum of those of some organizations.
abbrev number_of : Text → Text → ℕ
number_of base slug = read (drop (suc (length base)) slug)

abbrev numbers : Text → List Organization → ℕ
numbers base [] = 0
numbers base (o ∷ os) = number_of base o.cols.slug + numbers base os

number_of-candidate : (base : Text) (m : ℕ) → number_of base (candidate base (suc m)) ≡ m + 2
unfolding candidate
number_of-candidate base m =
    ap (λ x. read x) (drop-append base hyphen (print (m + 2))) ∙ read-print (m + 2)

numbers-mem :
    (base : Text) (o : Organization) (os : List Organization)
    → Memᴰ o os
    → number_of base o.cols.slug ≤ numbers base os
numbers-mem base o [] m = elim m [ ]
numbers-mem base o (x ∷ os) (Memᴰ.head e) =
    let same = ap (λ (y : Organization). number_of base y.cols.slug) e in omega (arith, same)
numbers-mem base o (x ∷ os) (Memᴰ.tail m) = omega (arith, numbers-mem base o os m)

not_some : {A : Type 0} (o : Option A) → is_some o ≡ false → o ≡ none
not_some none e = refl
not_some (some a) e = cc

module _ (t : Tables) where
  -- A bound on the candidates that are taken.
  abbrev taken_bound : Text → Db t → ℕ
  taken_bound base db = numbers base (t.organizations.find (λ o. true) db.organizations)

  taken_below :
      (base : Text) (m : ℕ) (db : Db t)
      → is_some (find_by_slug t (candidate base (suc m)) db) ≡ true
      → m + 2 ≤ taken_bound base db
  unfolding find_by_slug has_slug
  taken_below base m db h = elim (Option-cases (find_by_slug t (candidate base (suc m)) db)) [
    | inl n ↦ absurd (ground arith)
    | inr (o, q) ↦
        let p = has_slug (candidate base (suc m)) in
        let (row, v) = t.organizations.find_one_some p db.organizations o q in
        let same : o.cols.slug ≡ candidate base (suc m) = (text_eq_iff _ _).0 v.1 in
        let m_in =
          t.organizations.find_complete (λ o. true) db.organizations o.id o row (v.0, refl) in
        let below = numbers-mem base o (t.organizations.find (λ o. true) db.organizations) m_in in
        omega (arith, below, ap (number_of base) same, number_of-candidate base m)
  ]

  next_below :
      (base : Text) (n : ℕ) (db : Db t)
      → n ≤ suc (taken_bound base db)
      → is_some (find_by_slug t (candidate base n) db) ≡ true
      → suc n ≤ suc (taken_bound base db)
  next_below base zero db h k = omega arith
  next_below base (suc m) db h k = omega (arith, taken_below base m db k)

  first_free-is_some :
      (fuel : ℕ) (base : Text) (n : ℕ) (db : Db t)
      → n ≤ suc (taken_bound base db)
      → suc (taken_bound base db) < fuel + n
      → is_some (first_free t fuel base n db) ≡ true
  unfolding first_free
  first_free-is_some zero base n db h k = absurd (omega arith)
  first_free-is_some (suc fuel) base n db h k =
      elim (Bool-cases (is_some (find_by_slug t (candidate base n) db))) [
        | inl e ↦
            rw (e, first_free)
              (first_free-is_some fuel base (suc n) db (next_below base n db h e) (omega arith))
        | inr e ↦ rw (e, first_free) refl
      ]

  -- The loop ends: from some number of turns on, it has found a slug.
  pub first_free-enough :
      (base : Text) (db : Db t)
      → (turns : ℕ) × ((fuel : ℕ) → turns ≤ fuel → is_some (first_free t fuel base 0 db) ≡ true)
  first_free-enough base db = (
    suc (suc (taken_bound base db)),
    λ fuel h. first_free-is_some fuel base 0 db (omega arith) (omega arith),
  )

  -- The slug that the loop gives is free, and every candidate before it is taken.
  pub first_free-first :
      (fuel : ℕ) (base : Text) (n : ℕ) (db : Db t) (slug : Text)
      → first_free t fuel base n db ≡ some slug
      → (k : ℕ) × (slug ≡ candidate base (n + k))
        × (find_by_slug t slug db ≡ none)
        × ((j : ℕ) → j < k → is_some (find_by_slug t (candidate base (n + j)) db) ≡ true)
  unfolding first_free
  first_free-first zero base n db slug e = cc
  first_free-first (suc fuel) base n db slug e =
      elim (Bool-cases (is_some (find_by_slug t (candidate base n) db))) [
        | inl taken ↦
            let (k, same, free, before) =
              first_free-first fuel base (suc n) db slug (ground arith) in
            (
              suc k,
              same ∙ ap (candidate base) (omega arith),
              free,
              λ j h. earlier n base db k taken before j h,
            )
        | inr free ↦
            let same : candidate base n ≡ slug = ground arith in
            (
              0,
              sym same ∙ ap (candidate base) (omega arith),
              subst (λ (x : Text). find_by_slug t x db ≡ none) same
                  (not_some (find_by_slug t (candidate base n) db) free),
              λ j h. absurd (omega arith),
            )
      ]
    where
      earlier :
          (n : ℕ) (base : Text) (db : Db t) (k : ℕ)
          → is_some (find_by_slug t (candidate base n) db) ≡ true
          → ((j : ℕ) → j < k → is_some (find_by_slug t (candidate base (suc n + j)) db) ≡ true)
          → (j : ℕ) → j < suc k
          → is_some (find_by_slug t (candidate base (n + j)) db) ≡ true
      earlier n base db k taken before zero h =
          subst (λ (i : ℕ). is_some (find_by_slug t (candidate base i) db) ≡ true) (omega arith)
            taken
      earlier n base db k taken before (suc j) h =
          subst (λ (i : ℕ). is_some (find_by_slug t (candidate base i) db) ≡ true) (omega arith)
            (before j (omega arith))
