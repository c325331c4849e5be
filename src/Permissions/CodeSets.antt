-- ===== src/Permissions/CodeSets.antt =====
-- The specification of a catalog's grants: to each role a set of codes, a list up to its members.
use gym_saas_be.Prelude.{
  ◌≡◌, refl, sym, ◌∙◌, ◌≢◌, inl, inr, Bool, true, false, List, Text, text_eq, text_eq_iff, any-elim,
  any-intro, Bool-cases, ==_iff, ◌==◌, if◌then◌else◌, subst, arith,
}
use mathlib.Core.List.{Memᴰ}
use mathlib.Core.Quot.{Setoid, Quotient}
use mathlib.Core.Quot.Quotient
use gym_saas_be.Store.{Uuid, Time}
use gym_saas_be.Errors.{Result, ok, err}
use gym_saas_be.Entities.{Transactions, Tables, Db, transaction_err}
use gym_saas_be.Permissions.{has_code}
use gym_saas_be.Permissions.Repository.{
  find_permission_codes, replace_permissions, save_grants, without_grants,
}
use gym_saas_be.Permissions.Granted.{codes_iff}
use gym_saas_be.Permissions.Replace.{replace_permissions_lem}

abbrev pub SameCodes : List Text → List Text → Type 0
SameCodes x y = (c : Text) → has_code x c ≡ has_code y c

abbrev pub same_codes : Setoid {0, 0} (List Text)
same_codes = record {
  r = SameCodes;
  iseqv = record {
    refl = λ x c. refl;
    symm = λ x y h c. sym (h c);
    trans = λ x y z h k c. h c ∙ k c;
  };
}

abbrev pub CodeSet : Type 0
CodeSet = Quotient same_codes

abbrev pub set_of : List Text → CodeSet
set_of codes = Quotient.mk same_codes codes

-- A catalog with the set of one role replaced.
abbrev pub assign_set : Uuid → CodeSet → (Uuid → CodeSet) → Uuid → CodeSet
assign_set role_id codes granted other = if other == role_id then codes else granted other

bool_eq : (a b : Bool) → (a ≡ true → b ≡ true) → (b ≡ true → a ≡ true) → a ≡ b
bool_eq true b f g = sym (f refl)
bool_eq false true f g = g refl
bool_eq false false f g = refl

mem-has_code : (codes : List Text) (c : Text) → Memᴰ c codes → has_code codes c ≡ true
mem-has_code codes c m = any-intro codes (λ x. text_eq x c) m ((text_eq_iff c c).1 refl)

has_code-mem : (codes : List Text) (c : Text) → has_code codes c ≡ true → Memᴰ c codes
has_code-mem codes c e =
    let (x, m, same) = any-elim codes (λ x. text_eq x c) e in
    subst (λ (y : Text). Memᴰ y codes) ((text_eq_iff x c).0 same) m

module _ (t : Tables) where
  -- What the rows of the catalog say, role by role.
  abbrev pub granted_set : Db t → Uuid → CodeSet
  unfolding find_permission_codes
  granted_set db role_id = set_of (find_permission_codes t role_id db)

  set-replaced :
      (d : Transactions (Db t)) (role_id : Uuid) (codes : List Text) (now : Time) (db db' : Db t)
      → replace_permissions t d role_id codes now db ≡ (ok tt, db')
      → SameCodes (find_permission_codes t role_id db') codes
  set-replaced d role_id codes now db db' e c =
      let replaced = replace_permissions_lem t d role_id codes now db db' tt e role_id c in
      bool_eq _ _
        (λ h. elim (replaced.0 ((codes_iff t db' role_id c).0 h)) [
          | inl (n, g) ↦ absurd (n refl)
          | inr (same, m) ↦ mem-has_code codes c m
        ])
        (λ h. (codes_iff t db' role_id c).1 (replaced.1 (inr (refl, has_code-mem codes c h))))

  set-kept :
      (d : Transactions (Db t)) (role_id other : Uuid) (codes : List Text) (now : Time)
      (db db' : Db t)
      → replace_permissions t d role_id codes now db ≡ (ok tt, db')
      → other ≢ role_id
      → SameCodes (find_permission_codes t other db') (find_permission_codes t other db)
  set-kept d role_id other codes now db db' e n c =
      let replaced = replace_permissions_lem t d role_id codes now db db' tt e other c in
      bool_eq _ _
        (λ h. elim (replaced.0 ((codes_iff t db' other c).0 h)) [
          | inl (n', g) ↦ (codes_iff t db other c).1 g
          | inr (same, m) ↦ absurd (n same)
        ])
        (λ h. (codes_iff t db' other c).1 (replaced.1 (inl (n, (codes_iff t db other c).0 h))))

  -- How a replacement ends, on the sets.
  abbrev pub AfterReplace : Uuid → List Text → Db t → Result (Unit {0}) × Db t → Type 0
  unfolding granted_set
  AfterReplace role_id codes db (ok u, db') =
      (other : Uuid)
      → granted_set db' other ≡ assign_set role_id (set_of codes) (granted_set db) other
  AfterReplace role_id codes db (err x, db') = db' ≡ db

  ended-AfterReplace :
      (d : Transactions (Db t)) (role_id : Uuid) (codes : List Text) (now : Time) (db : Db t)
      (o : Result (Unit {0}) × Db t)
      → replace_permissions t d role_id codes now db ≡ o
      → AfterReplace role_id codes db o
  unfolding replace_permissions AfterReplace
  ended-AfterReplace d role_id codes now db (err x, db') e =
      transaction_err d (λ y. save_grants t role_id codes (without_grants t role_id now y)) db db' x
        e
  ended-AfterReplace d role_id codes now db (ok u, db') e = λ other.
      elim (Bool-cases (other == role_id)) [
        | inl q ↦
            let same = (==_iff other role_id).0 q in
            rw q (
              subst (λ (x : Uuid). granted_set db' x ≡ set_of codes) (sym same)
                (Quotient.sound same_codes (set-replaced d role_id codes now db db' e)))
        | inr q ↦ rw q (
            Quotient.sound same_codes (
              set-kept d role_id other codes now db db' e
                (λ same. ground (arith, (==_iff other role_id).1 same))))
      ]

  -- Replacing the permissions of a role, if it succeeds, assigns the role the set of the codes
  -- given and leaves every other role its set; if it fails, the catalog is as it was.
  pub replace_permissions-assign_set :
      (d : Transactions (Db t)) (role_id : Uuid) (codes : List Text) (now : Time) (db : Db t)
      → AfterReplace role_id codes db (replace_permissions t d role_id codes now db)
  replace_permissions-assign_set d role_id codes now db =
      ended-AfterReplace d role_id codes now db (replace_permissions t d role_id codes now db) refl
