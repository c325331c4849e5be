-- ===== src/Prelude/Lists.antt =====
-- Lists measured by native numbers, Boolean search, and predicates by recursion.
use Prim.Native.Nat.{ℕ, zero, suc}
use mathlib.Core.Path.{◌≡◌, refl, sym, subst}
use mathlib.Core.Logic.{inl, inr}
use mathlib.Core.Bool.{Bool, true, false, ◌||◌, ◌&&◌}
use mathlib.Core.List.{List, [], ◌∷◌, ◌++◌, map, Memᴰ}
use native.Mathlib.Omega.{arith}
use gym_saas_be.Prelude.Tests.{if◌then◌else◌, Bool-cases}

module _ {ℓ} {A : Type ℓ} where
  abbrev pub length : List A → ℕ
  length [] = 0
  length (x ∷ xs) = suc (length xs)

  abbrev pub any : List A → (A → Bool) → Bool
  any [] p = false
  any (x ∷ xs) p = p x || any xs p

  abbrev pub all : List A → (A → Bool) → Bool
  all [] p = true
  all (x ∷ xs) p = p x && all xs p

  -- `Array.prototype.filter`.
  abbrev pub filter_by : (A → Bool) → List A → List A
  filter_by p [] = []
  filter_by p (x ∷ xs) = if p x then x ∷ filter_by p xs else filter_by p xs

  abbrev pub take : ℕ → List A → List A
  take zero xs = []
  take (suc n) [] = []
  take (suc n) (x ∷ xs) = x ∷ take n xs

  -- `any` finds exactly the lists that hold a match.
  pub any-elim : (xs : List A) (p : A → Bool) → any xs p ≡ true → (a : A) × Memᴰ a xs × (p a ≡ true)
  any-elim [] p h = cc
  any-elim (x ∷ xs) p h = elim (Bool-cases (p x)) [
    | inl e ↦ (x, Memᴰ.head refl, e)
    | inr e ↦ let (a, m, q) = any-elim xs p (ground arith) in (a, Memᴰ.tail m, q)
  ]

  pub any-intro : {a : A} (xs : List A) (p : A → Bool) → Memᴰ a xs → p a ≡ true → any xs p ≡ true
  any-intro xs p (Memᴰ.head e) h = ground arith
  any-intro xs p (Memᴰ.tail m) h = ground (arith, any-intro _ p m h)

  pub all-append : (xs ys : List A) (p : A → Bool) → all (xs ++ ys) p ≡ (all xs p && all ys p)
  all-append [] ys p = refl
  all-append (x ∷ xs) ys p = ground (arith, all-append xs ys p)

  pub mem-filter_by :
      {a : A} (xs : List A) (p : A → Bool) → Memᴰ a xs → p a ≡ true → Memᴰ a (filter_by p xs)
  mem-filter_by [] p m h = elim m [ ]
  mem-filter_by (x ∷ xs) p (Memᴰ.head e) h = rw (subst (λ y. p y ≡ true) e h) (Memᴰ.head e)
  mem-filter_by (x ∷ xs) p (Memᴰ.tail m) h = elim (Bool-cases (p x)) [
    | inl e ↦ rw e (Memᴰ.tail (mem-filter_by xs p m h))
    | inr e ↦ rw e (mem-filter_by xs p m h)
  ]

module _ {ℓ κ} {A : Type ℓ} where
  abbrev pub All : (A → Type κ) → List A → Type κ
  All P [] = Unit
  All P (x ∷ xs) = P x × All P xs

  pub All-mem : (P : A → Type κ) {a : A} (xs : List A) → All P xs → Memᴰ a xs → P a
  All-mem P xs h (Memᴰ.head e) = subst P (sym e) h.0
  All-mem P xs h (Memᴰ.tail m) = All-mem P _ h.1 m

pub any-map {ℓ κ} :
    {A : Type ℓ} {B : Type κ} (f : B → A) (xs : List B) (p : A → Bool)
    → any (map f xs) p ≡ any xs (λ x. p (f x))
any-map f [] p = refl
any-map f (x ∷ xs) p = rw (any-map f xs p) refl
