-- ===== src/Store.antt =====
-- The rows that all entities share (src/common/entities) and the database as the application sees
-- it: TypeORM and PostgreSQL are not part of the repository, so a table is a parameter, a record of
-- the operations that the repositories call with the documented facts that the code relies on.
pub mod ListTable
pub mod Queries
use gym_saas_be.Prelude.{
  ℕ, ◌≡◌, ◌≢◌, Bool, true, false, Option, none, some, List, [], ◌∷◌, length, Text, ◌==◌,
  if◌then◌else◌, All,
}
use mathlib.Core.List.{Memᴰ}

-- An identifier is only generated, compared and tested for emptiness: it is numbered, and 0 is the
-- empty string (also an id that is not set yet).
abbrev pub Uuid : Type 0
Uuid = ℕ

-- Milliseconds since the epoch.
abbrev pub Time : Type 0
Time = ℕ

pub data DefaultBy : Type 0 where
  unknown system : DefaultBy

-- What `createdBy` and `updatedBy` hold: the id of an account, or a default.
pub data Author : Type 0 where
  account : Uuid → Author
  default_by : DefaultBy → Author

pub record BaseEntity : Type 0 where
  pub id : Uuid
  pub created_at : Time
  pub updated_at : Option Time
  pub deleted_at : Option Time
  pub created_by : Option Author
  pub updated_by : Option Author

-- `class X extends BaseEntity`, with the columns of `X`.
pub record Stored (C : Type 0) : Type 0 where
  pub base : BaseEntity
  pub open base use *
  pub cols : C

abbrev pub is_live : {C : Type 0} → Stored C → Bool
is_live r = elim r.deleted_at [ none ↦ true | some t ↦ false ]

-- A row after a soft delete.
abbrev pub deleted : {C : Type 0} → Time → Stored C → Stored C
deleted now r = record r { base = record (r.base) { deleted_at = some now; updated_at = some now } }

-- Rows that a query with `where: p` sees: they match and are not soft-deleted.
abbrev pub Visible : {C : Type 0} → (Stored C → Bool) → Stored C → Type 0
Visible p r = (r.deleted_at ≡ none) × (p r ≡ true)

-- Two rows that a unique index forbids: `same` compares the indexed columns, and a partial index
-- (`WHERE deleted_at IS NULL`) speaks of live rows only.
abbrev pub Clash : {C : Type 0} → (C → C → Bool) → Bool → Stored C → Stored C → Type 0
Clash same true a b = (same a.cols b.cols ≡ true) × (a.deleted_at ≡ none) × (b.deleted_at ≡ none)
Clash same false a b = same a.cols b.cols ≡ true

-- No two rows of the list have one id.
abbrev pub DistinctIds : {C : Type 0} → List (Stored C) → Type 0
DistinctIds [] = Unit
DistinctIds (r ∷ rs) = All (λ r'. r'.id ≢ r.id) rs × DistinctIds rs

abbrev pub map_row : {C : Type 0} → (Stored C → Stored C) → Option (Stored C) → Option (Stored C)
map_row f none = none
map_row f (some r) = some (f r)

pub record Table {C : Type 0} (same : C → C → Bool) (partial : Bool) : Type 1 where
  pub Store : Type 0
  pub row : Store → Uuid → Option (Stored C)
  pub find : (Stored C → Bool) → Store → List (Stored C)
  pub find_one : (Stored C → Bool) → Store → Option (Stored C)
  pub count : (Stored C → Bool) → Store → ℕ
  -- `none` is a `QueryFailedError`: a unique index is violated, or the database fails.
  pub save : Stored C → Store → Option (Stored C × Store)
  -- The driver's code in that error.
  pub save_error : Stored C → Store → Option Text
  pub soft_delete : (Stored C → Bool) → Time → Store → Store
  -- A row is found under its primary key, which is not empty, and unique indexes hold.
  pub row_zero : (s : Store) → row s 0 ≡ none
  pub row_id : (s : Store) (i : Uuid) (r : Stored C) → row s i ≡ some r → r.id ≡ i
  pub unique :
      (s : Store) (i j : Uuid) (a b : Stored C)
      → row s i ≡ some a
      → row s j ≡ some b
      → Clash same partial a b
      → i ≡ j
  -- `find` returns each visible row, once, in the database's order.
  pub find_sound :
      (p : Stored C → Bool) (s : Store) → All (λ r. (row s r.id ≡ some r) × Visible p r) (find p s)
  pub find_complete :
      (p : Stored C → Bool) (s : Store) (i : Uuid) (r : Stored C)
      → row s i ≡ some r
      → Visible p r
      → Memᴰ r (find p s)
  pub find_distinct : (p : Stored C → Bool) (s : Store) → DistinctIds (find p s)
  pub find_one_some :
      (p : Stored C → Bool) (s : Store) (r : Stored C)
      → find_one p s ≡ some r
      → (row s r.id ≡ some r) × Visible p r
  pub find_one_none :
      (p : Stored C → Bool) (s : Store) (i : Uuid) (r : Stored C)
      → find_one p s ≡ none
      → row s i ≡ some r
      → r.deleted_at ≡ none
      → p r ≡ false
  pub count_lem : (p : Stored C → Bool) (s : Store) → count p s ≡ length (find p s)
  -- `save` inserts or updates one row, keeps its columns, and gives a new row an unused id.
  pub save_row :
      (r r' : Stored C) (s s' : Store) (i : Uuid)
      → save r s ≡ some (r', s')
      → row s' i ≡ (if i == r'.id then some r' else row s i)
  pub save_cols : (r r' : Stored C) (s s' : Store) → save r s ≡ some (r', s') → r'.cols ≡ r.cols
  pub save_deleted_at :
      (r r' : Stored C) (s s' : Store) → save r s ≡ some (r', s') → r'.deleted_at ≡ r.deleted_at
  pub save_id :
      (r r' : Stored C) (s s' : Store) → save r s ≡ some (r', s') → r.id ≢ 0 → r'.id ≡ r.id
  pub save_new :
      (r r' : Stored C) (s s' : Store)
      → save r s ≡ some (r', s')
      → r.id ≡ 0
      → (r'.id ≢ 0) × (row s r'.id ≡ none)
  pub soft_delete_row :
      (p : Stored C → Bool) (now : Time) (s : Store) (i : Uuid)
      → row (soft_delete p now s) i ≡ map_row (λ r. if p r then deleted now r else r) (row s i)
