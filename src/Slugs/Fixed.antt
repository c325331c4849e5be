-- ===== src/Slugs/Fixed.antt =====
-- Slugs that are slugs already.
use gym_saas_be.Prelude.{
  ℕ, ◌≡◌, refl, Bool, true, false, ◌&&◌, ◌||◌, not, [], ◌∷◌, Text, arith, leb, ltb, filter_by, all,
  inl, inr, Bool-cases, ap, ◌∙◌, Unicode, trim, is_space, strip, starts_kept, ends_kept,
  strip-fixed,
}
use gym_saas_be.Slugs.{
  hyphen, is_slug_char, is_mark, is_hyphen, hyphenate, slugify, spaced, is_slug,
}
use gym_saas_be.Slugs.Charset.{hyphenate-char, hyphenate-first, spaced-tail}

-- Lower-case ASCII, which normalization and lower-casing leave alone.
abbrev pub is_lower_ascii : ℕ → Bool
is_lower_ascii c = ltb c 128 && not (leb 65 c && leb c 90)

pub record IsAsciiStable (u : Unicode) : Type 0 where
  pub nfd_ascii : (s : Text) → all s is_lower_ascii ≡ true → u.nfd s ≡ s
  pub to_lower_ascii : (s : Text) → all s is_lower_ascii ≡ true → u.to_lower s ≡ s

only_hyphen :
    (c : ℕ) (s : Text)
    → is_slug_char c ≡ false
    → spaced (c ∷ s) ≡ true
    → starts_kept is_hyphen (c ∷ s) ≡ true
    → ⊥
only_hyphen c [] e h k = ground arith
only_hyphen c (d ∷ s) e h k = ground arith

hyphen_head :
    (c : ℕ) (s : Text)
    → is_slug_char c ≡ false
    → spaced (c ∷ s) ≡ true
    → (c ≡ hyphen) × (starts_kept is_hyphen s ≡ true)
unfolding is_hyphen
hyphen_head c [] e h = ground arith
hyphen_head c (d ∷ s) e h = ground arith

hyphenate-fixed :
    (in_run : Bool) (s : Text)
    → spaced s ≡ true
    → (in_run ≡ true → starts_kept is_hyphen s ≡ true)
    → hyphenate in_run s ≡ s
unfolding hyphenate
hyphenate-fixed in_run [] h k = refl
hyphenate-fixed in_run (c ∷ s) h k = elim (Bool-cases (is_slug_char c)) [
  | inl e ↦
      hyphenate-char in_run c s e
      ∙ ap (λ x. c ∷ x) (hyphenate-fixed false s (spaced-tail c s h) (λ q. cc))
  | inr e ↦ elim (Bool-cases in_run) [
    | inl r ↦ absurd (only_hyphen c s e h (k r))
    | inr r ↦
        let (is_h, rest) = hyphen_head c s e h in
        ap (λ b. hyphenate b (c ∷ s)) r
        ∙ hyphenate-first c s e
        ∙ rw (is_h, hyphenate-fixed true s (spaced-tail c s h) (λ q. rest)) refl
  ]
]

spaced-all :
    (p : ℕ → Bool) (s : Text)
    → ((c : ℕ) → (is_slug_char c || is_hyphen c) ≡ true → p c ≡ true)
    → spaced s ≡ true
    → all s p ≡ true
spaced-all p [] h k = refl
spaced-all p (c ∷ []) h k = ground (arith, h c)
spaced-all p (c ∷ d ∷ s) h k = ground (arith, h c, spaced-all p (d ∷ s) h)

all-filter_by : (p : ℕ → Bool) (s : Text) → all s p ≡ true → filter_by p s ≡ s
all-filter_by p [] h = refl
all-filter_by p (c ∷ s) h = ground (arith, all-filter_by p s)

all-starts_kept :
    (drop : ℕ → Bool) (s : Text) → all s (λ c. not (drop c)) ≡ true → starts_kept drop s ≡ true
all-starts_kept drop [] h = refl
all-starts_kept drop (c ∷ s) h = ground arith

all-ends_kept :
    (drop : ℕ → Bool) (s : Text) → all s (λ c. not (drop c)) ≡ true → ends_kept drop s ≡ true
all-ends_kept drop [] h = refl
all-ends_kept drop (c ∷ []) h = ground arith
all-ends_kept drop (c ∷ d ∷ s) h = all-ends_kept drop (d ∷ s) (ground arith)

-- Where the Unicode tables leave lower-case ASCII alone, a slug is its own slug.
pub slugify-fixed : (u : Unicode) (s : Text) → IsAsciiStable u → is_slug s ≡ true → slugify u s ≡ s
unfolding slugify is_slug_char is_hyphen is_mark trim is_space
slugify-fixed u s stable h =
    let well : spaced s ≡ true = ground arith in
    let ascii = spaced-all is_lower_ascii s (λ c e. ground arith) well in
    let marks = spaced-all (λ c. not (is_mark c)) s (λ c e. ground arith) well in
    let spaces = spaced-all (λ c. not (is_space c)) s (λ c e. ground arith) well in
    let trimmed =
      strip-fixed is_space s (all-starts_kept is_space s spaces)
        (all-ends_kept is_space s spaces) in
    ap
      (λ x.
        strip is_hyphen (hyphenate false (trim (u.to_lower (filter_by (λ c. not (is_mark c)) x)))))
      (stable.nfd_ascii s ascii)
    ∙ ap (λ x. strip is_hyphen (hyphenate false (trim (u.to_lower x))))
        (all-filter_by (λ c. not (is_mark c)) s marks)
    ∙ ap (λ x. strip is_hyphen (hyphenate false (trim x))) (stable.to_lower_ascii s ascii)
    ∙ ap (λ x. strip is_hyphen (hyphenate false x)) trimmed
    ∙ ap (strip is_hyphen) (hyphenate-fixed false s well (λ q. cc))
    ∙ strip-fixed is_hyphen s (ground arith) (ground arith)
