-- ===== src/Prelude/Strings.antt =====
-- The string methods that the source uses, as the ECMAScript standard describes them. The tables of
-- the Unicode character database are a parameter.
use Prim.Native.Nat.{ℕ}
use mathlib.Core.Path.{◌≡◌, refl, ap, ◌∙◌}
use mathlib.Core.Bool.{Bool, true, false, ◌||◌, ◌&&◌, not}
use mathlib.Core.List.{[], ◌∷◌}
use native.Mathlib.Omega.{arith}
use gym_saas_be.Prelude.Tests.{◌==◌, leb, if◌then◌else◌}
use gym_saas_be.Prelude.Texts.{Text}

-- `normalize('NFD')` and `toLowerCase()`.
pub record Unicode : Type 0 where
  pub nfd : Text → Text
  pub to_lower : Text → Text

-- A white space or a line terminator.
unfoldable pub is_space : ℕ → Bool
is_space c =
    (leb 9 c && leb c 13)
    || c == 32
    || c == 160
    || c == 5760
    || (leb 8192 c && leb c 8202)
    || c == 8232
    || c == 8233
    || c == 8239
    || c == 8287
    || c == 12288
    || c == 65279

module _ (drop : ℕ → Bool) where
  -- What is left of a text when what may be dropped is dropped at its start, or at its end.
  unfoldable pub strip_start : Text → Text
  strip_start [] = []
  strip_start (c ∷ s) = if drop c then strip_start s else c ∷ s

  abbrev pub keep : ℕ → Text → Text
  keep c [] = if drop c then [] else c ∷ []
  keep c (d ∷ s) = c ∷ d ∷ s

  unfoldable pub strip_end : Text → Text
  strip_end [] = []
  strip_end (c ∷ s) = keep c (strip_end s)

  unfoldable pub strip : Text → Text
  unfolding strip_start strip_end
  strip s = strip_end (strip_start s)

  -- Neither end may be dropped.
  abbrev pub starts_kept : Text → Bool
  starts_kept [] = true
  starts_kept (c ∷ s) = not (drop c)

  abbrev pub ends_kept : Text → Bool
  ends_kept [] = true
  ends_kept (c ∷ []) = not (drop c)
  ends_kept (c ∷ d ∷ s) = ends_kept (d ∷ s)

  pub strip_start-starts_kept : (s : Text) → starts_kept (strip_start s) ≡ true
  unfolding strip_start
  strip_start-starts_kept [] = refl
  strip_start-starts_kept (c ∷ s) = ground (arith, strip_start-starts_kept s)

  keep-ends_kept : (c : ℕ) (s : Text) → ends_kept s ≡ true → ends_kept (keep c s) ≡ true
  keep-ends_kept c [] h = ground arith
  keep-ends_kept c (d ∷ s) h = h

  pub strip_end-ends_kept : (s : Text) → ends_kept (strip_end s) ≡ true
  unfolding strip_end
  strip_end-ends_kept [] = refl
  strip_end-ends_kept (c ∷ s) = keep-ends_kept c (strip_end s) (strip_end-ends_kept s)

  keep-starts_kept : (c : ℕ) (s : Text) → drop c ≡ false → starts_kept (keep c s) ≡ true
  keep-starts_kept c [] h = ground arith
  keep-starts_kept c (d ∷ s) h = ground arith

  strip_end-starts_kept : (s : Text) → starts_kept s ≡ true → starts_kept (strip_end s) ≡ true
  unfolding strip_end
  strip_end-starts_kept [] h = refl
  strip_end-starts_kept (c ∷ s) h = keep-starts_kept c (strip_end s) (ground arith)

  -- Stripping leaves both ends kept, and leaves such a text alone.
  pub strip-kept : (s : Text) → (starts_kept (strip s) ≡ true) × (ends_kept (strip s) ≡ true)
  unfolding strip
  strip-kept s = (
    strip_end-starts_kept (strip_start s) (strip_start-starts_kept s),
    strip_end-ends_kept (strip_start s),
  )

  strip_start-fixed : (s : Text) → starts_kept s ≡ true → strip_start s ≡ s
  unfolding strip_start
  strip_start-fixed [] h = refl
  strip_start-fixed (c ∷ s) h = ground arith

  strip_end-fixed : (s : Text) → ends_kept s ≡ true → strip_end s ≡ s
  unfolding strip_end
  strip_end-fixed [] h = refl
  strip_end-fixed (c ∷ []) h = ground arith
  strip_end-fixed (c ∷ d ∷ s) h = ap (keep c) (strip_end-fixed (d ∷ s) h)

  pub strip-fixed : (s : Text) → starts_kept s ≡ true → ends_kept s ≡ true → strip s ≡ s
  unfolding strip
  strip-fixed s h k = ap strip_end (strip_start-fixed s h) ∙ strip_end-fixed s k

-- `trim()`.
unfoldable pub trim : Text → Text
unfolding strip is_space
trim s = strip is_space s

pub trim-trim : (s : Text) → trim (trim s) ≡ trim s
unfolding trim
trim-trim s =
    strip-fixed is_space (strip is_space s) (strip-kept is_space s).0 (strip-kept is_space s).1
