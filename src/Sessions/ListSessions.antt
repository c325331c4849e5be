-- ===== src/Sessions/ListSessions.antt =====
-- The sessions' table kept in a list: the facts asked of it hold together, and the tests run on it.
use gym_saas_be.Prelude.{
  ℕ, suc, ◌≡◌, refl, inl, inr, Bool, true, false, Option, none, some, List, [], ◌∷◌, arith, ◌<◌,
  any, if◌then◌else◌, Bool-cases,
}
use gym_saas_be.Store.{Uuid, Time, map_row}
use gym_saas_be.Store.ListTable.{
  list_table, list_table_runs, row_in, IsValid, clashes, conflict, one_way,
}
use gym_saas_be.Errors.{Exception, Result, ok, err}
use gym_saas_be.Entities.{Transactions, SessionColumns, Session}
use gym_saas_be.Sessions.{no_index, after_update, SessionTable}

unfoldable pub first_any : (Session → Bool) → List Session → Option Session
first_any p [] = none
first_any p (r ∷ l) = if p r then some r else first_any p l

unfoldable pub matching : (Session → Bool) → List Session → ℕ
matching p [] = 0
matching p (r ∷ l) = if p r then suc (matching p l) else matching p l

module _ (at : Time) (p : Session → Bool) (f : SessionColumns → SessionColumns) (u : Uuid) where
  unfoldable pub patch_if : Session → Session
  patch_if r = if p r then after_update at f u r else r

  unfoldable pub patch_all : List Session → List Session
  patch_all [] = []
  patch_all (r ∷ l) = patch_if r ∷ patch_all l

  patch_if_id : (r : Session) → (patch_if r).id ≡ r.id
  unfolding patch_if
  patch_if_id r = ground arith

  row_in-patch_all :
      (i : Uuid) (l : List Session) → row_in i (patch_all l) ≡ map_row patch_if (row_in i l)
  unfolding row_in patch_all
  row_in-patch_all i [] = refl
  row_in-patch_all i (r ∷ l) = ground (arith, row_in-patch_all i l, patch_if_id r)

  no_clash : (a : Session) (l : List Session) → any l (clashes no_index true a) ≡ false
  unfolding conflict one_way
  no_clash a [] = refl
  no_clash a (r ∷ l) = no_clash a l

  pub patch_all-IsValid :
      (l : List Session) → IsValid no_index true l → IsValid no_index true (patch_all l)
  unfolding patch_all
  patch_all-IsValid [] v = tt
  patch_all-IsValid (r ∷ l) v = (
    rw (patch_if_id r, row_in-patch_all r.id l, v.0) refl,
    no_clash (patch_if r) (patch_all l),
    patch_all-IsValid l v.2,
    rw (patch_if_id r) (v.3),
  )

  pub row_in-update :
      (i : Uuid) (l : List Session)
      → row_in i (patch_all l)
        ≡ map_row (λ r. if p r then after_update at f u r else r) (row_in i l)
  unfolding patch_if
  row_in-update i l = row_in-patch_all i l

pub first_any-some :
    (p : Session → Bool) (l : List Session) (r : Session)
    → IsValid no_index true l
    → first_any p l ≡ some r
    → (row_in r.id l ≡ some r) × (p r ≡ true)
unfolding first_any row_in
first_any-some p [] r v e = cc
first_any-some p (x ∷ l) r v e = ground (arith, first_any-some p l r v.2, v.0)

pub first_any-none :
    (p : Session → Bool) (l : List Session) (i : Uuid) (r : Session)
    → first_any p l ≡ none
    → row_in i l ≡ some r
    → p r ≡ false
unfolding first_any row_in
first_any-none p [] i r e h = cc
first_any-none p (x ∷ l) i r e h = ground (arith, first_any-none p l i r)

pub matching-none :
    (p : Session → Bool) (l : List Session) (i : Uuid) (r : Session)
    → matching p l ≡ 0
    → row_in i l ≡ some r
    → p r ≡ false
unfolding matching row_in
matching-none p [] i r e h = cc
matching-none p (x ∷ l) i r e h = ground (arith, matching-none p l i r)

pub matching-some :
    (p : Session → Bool) (l : List Session)
    → IsValid no_index true l
    → 0 < matching p l
    → (i : Uuid) × (r : Session) × (row_in i l ≡ some r) × (p r ≡ true)
unfolding matching row_in
matching-some p [] v h = absurd (omega arith)
matching-some p (x ∷ l) v h = elim (Bool-cases (p x)) [
  | inl e ↦ (x.id, x, ground arith, e)
  | inr e ↦
      let (i, r, row, q) = matching-some p l v.2 (ground arith) in (i, r, ground (arith, v.0), q)
]

-- The time at which the updates of the list are made.
abbrev pub list_clock : Time
list_clock = 25

abbrev pub list_sessions : SessionTable
list_sessions = record {
  table = list_table no_index true;
  find_any = λ p s. first_any p s.0;
  clock = λ s. list_clock;
  update = λ p f u s. (patch_all list_clock p f u s.0, patch_all-IsValid list_clock p f u s.0 s.1);
  affected = λ p s. some (matching p s.0);
  find_any_some = λ p s r e. first_any-some p s.0 r s.1 e;
  find_any_none = λ p s i r e h. first_any-none p s.0 i r e h;
  update_row = λ p f u s i. row_in-update list_clock p f u i s.0;
  affected_none = λ p s i r e h. matching-none p s.0 i r e h;
  affected_some = λ p s h. matching-some p s.0 s.1 h;
}

-- A transaction that restores the state when its body throws.
unfoldable pub settle : {S A : Type 0} → S → Result A × S → Result A × S
settle s (ok a, s') = (ok a, s')
settle s (err e, s') = (err e, s)

pub settle_ok :
    {S A : Type 0} (s s' : S) (a : A) (o : Result A × S) → o ≡ (ok a, s') → settle s o ≡ (ok a, s')
unfolding settle
settle_ok s s' a o e = rw e

pub settle_err :
    {S A : Type 0} (s s' : S) (x : Exception) (o : Result A × S)
    → o ≡ (err x, s')
    → settle s o ≡ (err x, s)
unfolding settle
settle_err s s' x o e = rw e

abbrev pub run_transaction : {S : Type 0} → Transactions S
run_transaction = record {
  transaction = λ A m s. settle s (m s);
  commit = λ A m s s' a e. settle_ok s s' a (m s) e;
  rollback = λ A m s s' x e. settle_err s s' x (m s) e;
}

-- For tests that run.
unfoldable pub list_sessions_run : Unit {0}
unfolding list_table_runs first_any patch_all patch_if matching settle
list_sessions_run = tt
