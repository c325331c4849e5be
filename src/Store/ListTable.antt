-- ===== src/Store/ListTable.antt =====
-- A table kept in a list: it shows that the facts asked of a table can hold together, and it runs
-- the code on concrete data in the tests.
mod Rows
unfoldable pub use Rows.{row_in, IsValid, clashes, conflict, one_way}
use mathlib.Core.List.{Memᴰ}
use gym_saas_be.Prelude.{
  ℕ, ◌≡◌, refl, sym, ap, ◌≢◌, inl, inr, Bool, true, false, Option, none, some, List, [], ◌∷◌, arith,
  length, any, filter_by, All, ◌==◌, if◌then◌else◌, Bool-cases, mem-filter_by,
}
use gym_saas_be.Store.{Uuid, Time, Stored, deleted, Visible, Clash, DistinctIds, map_row, Table}
use Rows.{
  row_in, put, fresh, fresh-pos, delete_if, delete_if_id, delete_all, visible, row_in-fresh,
  row_in_id, row_in-put, row_in-delete_all, conflict, conflict_of_Clash, other_conflict, clashes,
  IsValid, put-IsValid, delete_all-IsValid, rows_unique, row_in-zero,
}

module _ {C : Type 0} (same : C → C → Bool) (partial : Bool) where
  abbrev pub ListStore : Type 0
  ListStore = (l : List (Stored C)) × IsValid same partial l

  unfoldable pub find : (Stored C → Bool) → List (Stored C) → List (Stored C)
  find p l = filter_by (visible p) l

  unfoldable pub first : (Stored C → Bool) → List (Stored C) → Option (Stored C)
  first p [] = none
  first p (r ∷ l) = if visible p r then some r else first p l

  abbrev pub with_id : Uuid → Stored C → Stored C
  with_id i r = record r { base = record (r.base) { id = i } }

  unfoldable pub save_checked :
      (r : Stored C) (l : List (Stored C)) (v : IsValid same partial l) (b : Bool)
      → any l (other_conflict same partial r) ≡ b
      → (r.id == 0) ≡ false
      → Option (Stored C × ListStore)
  save_checked r l v true e z = none
  save_checked r l v false e z = some (r, (put r l, put-IsValid same partial r l v e z))

  pub with_id_filled :
      (r : Stored C) (l : List (Stored C))
      → ((with_id (if r.id == 0 then fresh l else r.id) r).id == 0) ≡ false
  with_id_filled r l = ground (arith, fresh-pos l)

  unfoldable pub save : Stored C → ListStore → Option (Stored C × ListStore)
  unfolding save_checked
  save r s =
      save_checked (with_id (if r.id == 0 then fresh s.0 else r.id) r) s.0 s.1 _ refl
        (with_id_filled r s.0)

  abbrev Found : (Stored C → Bool) → List (Stored C) → Stored C → Type 0
  Found p l r = (row_in r.id l ≡ some r) × Visible p r

  Found-cons :
      (p : Stored C → Bool) (x : Stored C) (l rs : List (Stored C))
      → row_in x.id l ≡ none
      → All (Found p l) rs
      → All (Found p (x ∷ l)) rs
  unfolding row_in
  Found-cons p x l [] h a = tt
  Found-cons p x l (r ∷ rs) h a = ((ground arith, a.0.1), Found-cons p x l rs h a.1)

  pub find_sound :
      (p : Stored C → Bool) (l : List (Stored C))
      → IsValid same partial l
      → All (Found p l) (find p l)
  unfolding find row_in
  find_sound p [] v = tt
  find_sound p (x ∷ l) v = ground (arith, Found-cons p x l (find p l) v.0 (find_sound p l v.2))

  row_in-mem : (i : Uuid) (l : List (Stored C)) (r : Stored C) → row_in i l ≡ some r → Memᴰ r l
  unfolding row_in
  row_in-mem i [] r e = cc
  row_in-mem i (x ∷ l) r e = elim (Bool-cases (i == x.id)) [
    | inl q ↦ Memᴰ.head (ground arith)
    | inr q ↦ Memᴰ.tail (row_in-mem i l r (ground arith))
  ]

  pub find_complete :
      (p : Stored C → Bool) (l : List (Stored C)) (i : Uuid) (r : Stored C)
      → row_in i l ≡ some r
      → Visible p r
      → Memᴰ r (find p l)
  unfolding find
  find_complete p l i r e h = mem-filter_by l (visible p) (row_in-mem i l r e) (ground arith)

  find_other :
      (p : Stored C → Bool) (i : Uuid) (l : List (Stored C))
      → row_in i l ≡ none
      → All (λ r. r.id ≢ i) (find p l)
  unfolding find row_in
  find_other p i [] h = tt
  find_other p i (x ∷ l) h = ground (arith, find_other p i l)

  pub find_distinct :
      (p : Stored C → Bool) (l : List (Stored C)) → IsValid same partial l → DistinctIds (find p l)
  unfolding find
  find_distinct p [] v = tt
  find_distinct p (x ∷ l) v = ground (arith, find_other p x.id l v.0, find_distinct p l v.2)

  pub first-some :
      (p : Stored C → Bool) (l : List (Stored C)) (r : Stored C)
      → IsValid same partial l
      → first p l ≡ some r
      → Found p l r
  unfolding first row_in
  first-some p [] r v e = cc
  first-some p (x ∷ l) r v e = ground (arith, first-some p l r v.2)

  pub first-none :
      (p : Stored C → Bool) (l : List (Stored C)) (i : Uuid) (r : Stored C)
      → first p l ≡ none
      → row_in i l ≡ some r
      → r.deleted_at ≡ none
      → p r ≡ false
  unfolding first row_in
  first-none p [] i r e h live = cc
  first-none p (x ∷ l) i r e h live = ground (arith, first-none p l i r)

  save_checked_lem :
      (r : Stored C) (l : List (Stored C)) (v : IsValid same partial l) (b : Bool)
      (e : any l (other_conflict same partial r) ≡ b) (z : (r.id == 0) ≡ false) (r' : Stored C)
      (s' : ListStore)
      → save_checked r l v b e z ≡ some (r', s')
      → (r' ≡ r) × (s'.0 ≡ put r l)
  unfolding save_checked
  save_checked_lem r l v true e z r' s' h = cc
  save_checked_lem r l v false e z r' s' h =
      (cc, sym (ap (λ (t : Option (Stored C × ListStore)). rows t) h))
    where
      rows : Option (Stored C × ListStore) → List (Stored C)
      rows none = []
      rows (some (_, s)) = s.0

  abbrev Saves : Stored C → ListStore → Stored C → ListStore → Type 0
  Saves r s r' s' = (r' ≡ with_id (if r.id == 0 then fresh s.0 else r.id) r) × (s'.0 ≡ put r' s.0)

  pub save_lem : (r r' : Stored C) (s s' : ListStore) → save r s ≡ some (r', s') → Saves r s r' s'
  unfolding save
  save_lem r r' s s' e =
      let (a, b) = save_checked_lem _ s.0 s.1 _ refl (with_id_filled r s.0) r' s' e in (a, rw a b)

  pub save_row_lem :
      (r r' : Stored C) (s s' : ListStore) (i : Uuid)
      → save r s ≡ some (r', s')
      → row_in i s'.0 ≡ (if i == r'.id then some r' else row_in i s.0)
  save_row_lem r r' s s' i e = rw ((save_lem r r' s s' e).1) (row_in-put i r' s.0)

  pub save_keeps :
      (r r' : Stored C) (s s' : ListStore)
      → save r s ≡ some (r', s')
      → (r'.cols ≡ r.cols)
        × (r'.deleted_at ≡ r.deleted_at)
        × (r.id ≢ 0 → r'.id ≡ r.id)
        × (r.id ≡ 0 → r'.id ≡ fresh s.0)
  save_keeps r r' s s' e = ground (arith, (save_lem r r' s s' e).0)

  pub save_new :
      (r r' : Stored C) (s s' : ListStore)
      → save r s ≡ some (r', s')
      → r.id ≡ 0
      → (r'.id ≢ 0) × (row_in r'.id s.0 ≡ none)
  save_new r r' s s' e h =
      let i : r'.id ≡ fresh s.0 = (save_keeps r r' s s' e).3 h in
      (omega (arith, i, fresh-pos s.0), row_in-fresh r'.id s.0 (omega (arith, i)))

  pub row_in-soft_delete :
      (p : Stored C → Bool) (now : Time) (i : Uuid) (l : List (Stored C))
      → row_in i (delete_all p now l) ≡ map_row (λ r. if p r then deleted now r else r) (row_in i l)
  unfolding delete_if
  row_in-soft_delete p now i l = row_in-delete_all p now i l

  abbrev pub list_table : Table same partial
  list_table = record {
    Store = ListStore;
    row = λ s i. row_in i s.0;
    find = λ p s. find p s.0;
    find_one = λ p s. first p s.0;
    count = λ p s. length (find p s.0);
    save = save;
    save_error = λ r s. none;
    soft_delete = λ p now s. (delete_all p now s.0, delete_all-IsValid same partial p now s.0 s.1);
    row_zero = λ s. row_in-zero same partial s.0 s.1;
    row_id = λ s i r e. row_in_id i s.0 r e;
    unique = λ s i j a b ea eb h.
        rows_unique same partial s.0 i j a b s.1 ea eb (conflict_of_Clash same partial a b h);
    find_sound = λ p s. find_sound p s.0 s.1;
    find_complete = λ p s i r e h. find_complete p s.0 i r e h;
    find_distinct = λ p s. find_distinct p s.0 s.1;
    find_one_some = λ p s r e. first-some p s.0 r s.1 e;
    find_one_none = λ p s i r e. first-none p s.0 i r e;
    count_lem = λ p s. refl;
    save_row = save_row_lem;
    save_cols = λ r r' s s' e. (save_keeps r r' s s' e).0;
    save_deleted_at = λ r r' s s' e. (save_keeps r r' s s' e).1;
    save_id = λ r r' s s' e. (save_keeps r r' s s' e).2;
    save_new = save_new;
    soft_delete_row = λ p now s i. row_in-soft_delete p now i s.0;
  }

-- For tests that run: what the operations of a list table compute with.
unfoldable pub list_table_runs : Unit {0}
unfolding find first save put row_in fresh delete_all delete_if conflict one_way
list_table_runs = tt
