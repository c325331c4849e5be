-- ===== src/Slugs/Charset.antt =====
-- The characters of a slug.
use gym_saas_be.Prelude.{
  ℕ, ◌≡◌, refl, Bool, true, false, not, [], ◌∷◌, Text, arith, filter_by, inl, inr, Bool-cases,
  Unicode, trim, strip, strip_start, strip_end, starts_kept, strip-kept, keep,
}
use gym_saas_be.Slugs.{
  hyphen, is_slug_char, is_mark, is_hyphen, hyphenate, slugify, spaced, is_slug,
}

pub char_not_hyphen : (c : ℕ) → is_slug_char c ≡ true → is_hyphen c ≡ false
unfolding is_slug_char is_hyphen
char_not_hyphen c h = ground arith

spaced-char : (c : ℕ) (s : Text) → is_slug_char c ≡ true → spaced s ≡ true → spaced (c ∷ s) ≡ true
spaced-char c [] h k = ground arith
spaced-char c (d ∷ s) h k = ground arith

spaced-hyphen :
    (s : Text) → spaced s ≡ true → starts_kept is_hyphen s ≡ true → spaced (hyphen ∷ s) ≡ true
unfolding is_hyphen is_slug_char
spaced-hyphen [] h k = refl
spaced-hyphen (d ∷ s) h k = ground arith

pub hyphenate-char :
    (b : Bool) (c : ℕ) (s : Text)
    → is_slug_char c ≡ true
    → hyphenate b (c ∷ s) ≡ c ∷ hyphenate false s
unfolding hyphenate
hyphenate-char b c s h = rw (h, hyphenate) refl

hyphenate-run :
    (c : ℕ) (s : Text) → is_slug_char c ≡ false → hyphenate true (c ∷ s) ≡ hyphenate true s
unfolding hyphenate
hyphenate-run c s h = rw (h, hyphenate) refl

pub hyphenate-first :
    (c : ℕ) (s : Text)
    → is_slug_char c ≡ false
    → hyphenate false (c ∷ s) ≡ hyphen ∷ hyphenate true s
unfolding hyphenate
hyphenate-first c s h = rw (h, hyphenate) refl

hyphenate-spaced :
    (in_run : Bool) (s : Text)
    → (spaced (hyphenate in_run s) ≡ true)
      × (in_run ≡ true → starts_kept is_hyphen (hyphenate in_run s) ≡ true)
unfolding hyphenate
hyphenate-spaced in_run [] = (refl, λ e. refl)
hyphenate-spaced true (c ∷ s) =
    let kept = hyphenate-spaced false s in
    let run = hyphenate-spaced true s in
    elim (Bool-cases (is_slug_char c)) [
      | inl h ↦
          rw (hyphenate-char true c s h)
            (spaced-char c (hyphenate false s) h kept.0, λ e. rw (char_not_hyphen c h) refl)
      | inr h ↦ rw (hyphenate-run c s h) run
    ]
hyphenate-spaced false (c ∷ s) =
    let kept = hyphenate-spaced false s in
    let run = hyphenate-spaced true s in
    elim (Bool-cases (is_slug_char c)) [
      | inl h ↦
          rw (hyphenate-char false c s h) (spaced-char c (hyphenate false s) h kept.0, λ e. cc)
      | inr h ↦
          rw (hyphenate-first c s h) (spaced-hyphen (hyphenate true s) run.0 (run.1 refl), λ e. cc)
    ]

pub spaced-tail : (c : ℕ) (s : Text) → spaced (c ∷ s) ≡ true → spaced s ≡ true
spaced-tail c [] h = refl
spaced-tail c (d ∷ s) h = ground arith

strip_start-spaced : (s : Text) → spaced s ≡ true → spaced (strip_start is_hyphen s) ≡ true
unfolding strip_start
strip_start-spaced [] h = refl
strip_start-spaced (c ∷ s) h = ground (arith, spaced-tail c s h, strip_start-spaced s)

keep-spaced :
    (c d : ℕ) (s r : Text)
    → spaced (c ∷ d ∷ s) ≡ true
    → spaced (keep is_hyphen d r) ≡ true
    → spaced (keep is_hyphen c (keep is_hyphen d r)) ≡ true
keep-spaced c d s [] h k = ground arith
keep-spaced c d s (e ∷ r) h k = ground arith

strip_end-spaced : (s : Text) → spaced s ≡ true → spaced (strip_end is_hyphen s) ≡ true
unfolding strip_end
strip_end-spaced [] h = refl
strip_end-spaced (c ∷ []) h = ground arith
strip_end-spaced (c ∷ d ∷ s) h =
    keep-spaced c d s (strip_end is_hyphen s) h (strip_end-spaced (d ∷ s) (spaced-tail c (d ∷ s) h))

-- A slug has only lower-case letters, digits and single hyphens between them, whatever the input
-- and whatever the Unicode tables say.
pub slugify-is_slug : (u : Unicode) (input : Text) → is_slug (slugify u input) ≡ true
unfolding slugify strip
slugify-is_slug u input =
    let lower = trim (u.to_lower (filter_by (λ c. not (is_mark c)) (u.nfd input))) in
    let text = hyphenate false lower in
    let trimmed = strip_start is_hyphen text in
    let start = strip_start-spaced text (hyphenate-spaced false lower).0 in
    let kept = strip-kept is_hyphen text in rw (strip_end-spaced trimmed start, kept.0, kept.1) refl
