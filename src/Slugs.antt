-- ===== src/Slugs.antt =====
-- Slugs: common/lib/slugify.ts.
pub mod Charset
pub mod Fixed
mod Tests
use gym_saas_be.Prelude.{
  ℕ, ◌≡◌, refl, Bool, true, false, ◌&&◌, ◌||◌, not, List, [], ◌∷◌, Text, arith, leb, ltb, ◌==◌,
  if◌then◌else◌, filter_by, all, inl, inr, Bool-cases, ap, ◌∙◌, sym, subst, Unicode, trim, is_space,
  strip, strip_start, strip_end, starts_kept, ends_kept, strip-kept, strip-fixed, keep,
}

abbrev pub hyphen : ℕ
hyphen = 45

-- The class `[a-z0-9]`, and the combining marks that are removed.
unfoldable pub is_slug_char : ℕ → Bool
is_slug_char c = (leb 97 c && leb c 122) || (leb 48 c && leb c 57)

unfoldable pub is_mark : ℕ → Bool
is_mark c = leb 768 c && leb c 879

unfoldable pub is_hyphen : ℕ → Bool
is_hyphen c = c == hyphen

-- `replace(/[^a-z0-9]+/g, '-')`; the flag says that the run of other characters has its hyphen.
unfoldable pub hyphenate : Bool → Text → Text
hyphenate in_run [] = []
hyphenate in_run (c ∷ s) = elim (is_slug_char c) [
  | true ↦ c ∷ hyphenate false s
  | false ↦ elim in_run [ true ↦ hyphenate true s | false ↦ hyphen ∷ hyphenate true s ]
]

unfoldable pub slugify : Unicode → Text → Text
unfolding hyphenate is_slug_char is_mark is_hyphen strip
slugify u input =
    let plain = filter_by (λ c. not (is_mark c)) (u.nfd input) in
    strip is_hyphen (hyphenate false (trim (u.to_lower plain)))

-- Letters, digits and hyphens, no two hyphens in a row.
abbrev pub spaced : Text → Bool
spaced [] = true
spaced (c ∷ []) = is_slug_char c || is_hyphen c
spaced (c ∷ d ∷ s) = (is_slug_char c || (is_hyphen c && not (is_hyphen d))) && spaced (d ∷ s)

abbrev pub is_slug : Text → Bool
is_slug s = spaced s && starts_kept is_hyphen s && ends_kept is_hyphen s
