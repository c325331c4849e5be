-- ===== src/Store/ListTable/Rows.antt =====
-- The list operations behind the list table, and that they keep ids and indexes unique.
use gym_saas_be.Prelude.{
  ◌+◌, ◌≤◌, ◌≡◌, refl, inl, inr, Bool, true, false, ◌&&◌, ◌||◌, not, Option, none, some, List, [],
  ◌∷◌, arith, any, ◌==◌, if◌then◌else◌, Bool-cases,
}
use gym_saas_be.Store.{Uuid, Time, Stored, is_live, deleted, Clash, map_row}

module _ {C : Type 0} where
  unfoldable pub row_in : Uuid → List (Stored C) → Option (Stored C)
  row_in i [] = none
  row_in i (r ∷ l) = if i == r.id then some r else row_in i l

  unfoldable pub put : Stored C → List (Stored C) → List (Stored C)
  put r [] = r ∷ []
  put r (x ∷ l) = if x.id == r.id then r ∷ l else x ∷ put r l

  unfoldable pub fresh : List (Stored C) → Uuid
  fresh [] = 1
  fresh (r ∷ l) = r.id + fresh l

  pub fresh-pos : (l : List (Stored C)) → 1 ≤ fresh l
  unfolding fresh
  fresh-pos [] = omega arith
  fresh-pos (r ∷ l) = omega (arith, fresh-pos l)

  unfoldable pub delete_if : (Stored C → Bool) → Time → Stored C → Stored C
  delete_if p now r = if p r then deleted now r else r

  unfoldable pub delete_all : (Stored C → Bool) → Time → List (Stored C) → List (Stored C)
  delete_all p now [] = []
  delete_all p now (r ∷ l) = delete_if p now r ∷ delete_all p now l

  abbrev pub visible : (Stored C → Bool) → Stored C → Bool
  visible p r = is_live r && p r

  pub row_in-fresh : (i : Uuid) (l : List (Stored C)) → fresh l ≤ i → row_in i l ≡ none
  unfolding row_in fresh
  row_in-fresh i [] h = refl
  row_in-fresh i (r ∷ l) h = ground (arith, row_in-fresh i l, fresh-pos l)

  pub row_in_id : (i : Uuid) (l : List (Stored C)) (r : Stored C) → row_in i l ≡ some r → r.id ≡ i
  unfolding row_in
  row_in_id i [] r h = cc
  row_in_id i (x ∷ l) r h = ground (arith, row_in_id i l r)

  pub row_in-put :
      (i : Uuid) (r : Stored C) (l : List (Stored C))
      → row_in i (put r l) ≡ (if i == r.id then some r else row_in i l)
  unfolding row_in put
  row_in-put i r [] = refl
  row_in-put i r (x ∷ l) = ground (arith, row_in-put i r l)

  pub delete_if_id :
      (p : Stored C → Bool) (now : Time) (r : Stored C) → (delete_if p now r).id ≡ r.id
  unfolding delete_if
  delete_if_id p now r = ground arith

  pub row_in-delete_all :
      (p : Stored C → Bool) (now : Time) (i : Uuid) (l : List (Stored C))
      → row_in i (delete_all p now l) ≡ map_row (delete_if p now) (row_in i l)
  unfolding row_in delete_all delete_if
  row_in-delete_all p now i [] = refl
  row_in-delete_all p now i (x ∷ l) = ground (arith, row_in-delete_all p now i l)

module _ {C : Type 0} (same : C → C → Bool) (partial : Bool) where
  unfoldable pub one_way : Stored C → Stored C → Bool
  one_way a b = same a.cols b.cols && (not partial || (is_live a && is_live b))

  unfoldable pub conflict : Stored C → Stored C → Bool
  conflict a b = one_way a b || one_way b a

  conflict_comm : (a b : Stored C) → conflict a b ≡ conflict b a
  unfolding conflict
  conflict_comm a b = ground arith

pub conflict_of_Clash :
    {C : Type 0} (same : C → C → Bool) (partial : Bool) (a b : Stored C)
    → Clash same partial a b
    → conflict same partial a b ≡ true
unfolding conflict one_way
conflict_of_Clash same true a b h = ground arith
conflict_of_Clash same false a b h = ground arith

module _ {C : Type 0} (same : C → C → Bool) (partial : Bool) where
  abbrev pub clashes : Stored C → Stored C → Bool
  clashes = conflict same partial

  abbrev pub IsValid : List (Stored C) → Type 0
  IsValid [] = Unit
  IsValid (r ∷ l) =
      (row_in r.id l ≡ none) × (any l (clashes r) ≡ false) × IsValid l × ((r.id == 0) ≡ false)

  abbrev pub other_conflict : Stored C → Stored C → Bool
  other_conflict r b = not (b.id == r.id) && clashes r b

  no_other :
      (r : Stored C) (l : List (Stored C))
      → row_in r.id l ≡ none
      → any l (other_conflict r) ≡ false
      → any l (clashes r) ≡ false
  unfolding row_in
  no_other r [] h k = refl
  no_other r (x ∷ l) h k = ground (arith, no_other r l)

  any-put :
      (q : Stored C → Bool) (r : Stored C) (l : List (Stored C))
      → any l q ≡ false
      → q r ≡ false
      → any (put r l) q ≡ false
  unfolding put
  any-put q r [] h k = ground arith
  any-put q r (x ∷ l) h k = ground (arith, any-put q r l)

  pub put-IsValid :
      (r : Stored C) (l : List (Stored C))
      → IsValid l
      → any l (other_conflict r) ≡ false
      → (r.id == 0) ≡ false
      → IsValid (put r l)
  unfolding put row_in
  put-IsValid r [] v h z = (refl, refl, tt, z)
  put-IsValid r (x ∷ l) v h z = elim (Bool-cases (x.id == r.id)) [
    | inl e ↦ rw e (ground (arith, v.0), no_other r l (ground (arith, v.0)) (ground arith), v.2, z)
    | inr e ↦ rw e (
      rw (row_in-put x.id r l, e) v.0,
      any-put (clashes x) r l v.1 (ground (arith, conflict_comm same partial x r)),
      put-IsValid r l v.2 (ground arith) z,
      v.3,
    )
  ]

  conflict-delete_if :
      (p : Stored C → Bool) (now : Time) (a b : Stored C)
      → clashes a b ≡ false
      → clashes (delete_if p now a) (delete_if p now b) ≡ false
  unfolding conflict one_way delete_if
  conflict-delete_if p now a b h = ground arith

  any-delete_all :
      (p : Stored C → Bool) (now : Time) (a : Stored C) (l : List (Stored C))
      → any l (clashes a) ≡ false
      → any (delete_all p now l) (clashes (delete_if p now a)) ≡ false
  unfolding delete_all
  any-delete_all p now a [] h = refl
  any-delete_all p now a (x ∷ l) h =
      ground (arith, conflict-delete_if p now a x, any-delete_all p now a l)

  pub delete_all-IsValid :
      (p : Stored C → Bool) (now : Time) (l : List (Stored C))
      → IsValid l
      → IsValid (delete_all p now l)
  unfolding delete_all
  delete_all-IsValid p now [] v = tt
  delete_all-IsValid p now (x ∷ l) v = (
    rw (delete_if_id p now x, row_in-delete_all p now x.id l, v.0) refl,
    any-delete_all p now x l v.1,
    delete_all-IsValid p now l v.2,
    rw (delete_if_id p now x) (v.3),
  )

  any_row :
      (q : Stored C → Bool) (i : Uuid) (r : Stored C) (l : List (Stored C))
      → any l q ≡ false
      → row_in i l ≡ some r
      → q r ≡ false
  unfolding row_in
  any_row q i r [] h e = cc
  any_row q i r (x ∷ l) h e = ground (arith, any_row q i r l)

  pub rows_unique :
      (l : List (Stored C)) (i j : Uuid) (a b : Stored C)
      → IsValid l
      → row_in i l ≡ some a
      → row_in j l ≡ some b
      → clashes a b ≡ true
      → i ≡ j
  unfolding row_in
  rows_unique [] i j a b v e k h = cc
  rows_unique (x ∷ l) i j a b v e k h = ground (
    arith,
    rows_unique l i j a b,
    any_row (clashes x) j b l v.1,
    any_row (clashes x) i a l v.1,
    conflict_comm same partial a b,
  )

  pub row_in-zero : (l : List (Stored C)) → IsValid l → row_in 0 l ≡ none
  unfolding row_in
  row_in-zero [] v = refl
  row_in-zero (x ∷ l) v = ground (arith, row_in-zero l v.2, v.3)
