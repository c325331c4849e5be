-- ===== src/Prelude/Decimal.antt =====
-- A number printed in decimal, as a template literal does, and read back.
use Prim.Native.Nat.{ℕ, zero, suc, ◌+◌, ◌-◌, ◌*◌, ◌/◌, ◌%◌, ◌<◌}
use mathlib.Core.Path.{◌≡◌, refl, ◌∙◌}
use mathlib.Core.Logic.{inl, inr}
use mathlib.Core.List.{[], ◌∷◌, ◌++◌}
use native.Mathlib.Omega.{arith}
use gym_saas_be.Prelude.Tests.{ltb, if◌then◌else◌, Bool-cases}
use gym_saas_be.Prelude.Texts.{Text}

-- One digit for each step of the fuel, at most; the number itself is fuel enough.
unfoldable pub digits : ℕ → ℕ → Text
digits zero n = []
digits (suc fuel) n =
    let front = digits fuel (n / 10) in
    if ltb n 10 then (48 + n) ∷ [] else front ++ ((48 + n % 10) ∷ [])

unfoldable pub print : ℕ → Text
unfolding digits
print n = digits (suc n) n

abbrev pub read_from : ℕ → Text → ℕ
read_from acc [] = acc
read_from acc (c ∷ s) = read_from (10 * acc + (c - 48)) s

abbrev pub read : Text → ℕ
read s = read_from 0 s

read_from-append : (acc : ℕ) (s t : Text) → read_from acc (s ++ t) ≡ read_from (read_from acc s) t
read_from-append acc [] t = refl
read_from-append acc (c ∷ s) t = read_from-append (10 * acc + (c - 48)) s t

read-digits : (fuel n : ℕ) → n < fuel → read (digits fuel n) ≡ n
unfolding digits
read-digits zero n h = absurd (omega arith)
read-digits (suc fuel) n h = elim (Bool-cases (ltb n 10)) [
  | inl e ↦ ground arith
  | inr e ↦
      let front = read-digits fuel (n / 10) (ground arith) in
      rw e (read_from-append 0 (digits fuel (n / 10)) ((48 + n % 10) ∷ []) ∙ rw front (omega arith))
]

-- A printed number reads back as itself.
pub read-print : (n : ℕ) → read (print n) ≡ n
unfolding print
read-print n = read-digits (suc n) n (omega arith)
