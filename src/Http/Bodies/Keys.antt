-- ===== src/Http/Bodies/Keys.antt =====
-- modules/roles/interfaces/dto/create-role.dto.ts: the keys that a role may have are the slugs.
use gym_saas_be.Prelude.{
  ℕ, ◌≡◌, refl, ◌≢◌, ◌↔◌, Bool, true, false, ◌&&◌, not, [], ◌∷◌, Text, inl, inr, Bool-cases,
  Unicode, ends_kept, subst, ◌∙◌, sym, ap,
}
use gym_saas_be.Slugs.{is_slug_char, is_hyphen, slugify, spaced, is_slug}
use gym_saas_be.Slugs.Charset.{char_not_hyphen, slugify-is_slug}
use gym_saas_be.Slugs.Fixed.{IsAsciiStable, slugify-fixed}
use gym_saas_be.Http.Bodies.{matches_words, is_key}

abbrev is_filled : Text → Bool
is_filled [] = false
is_filled (c ∷ s) = true

-- Inside a word, which began with some letter or digit, and between words.
words-char :
    (begun : Bool) (c : ℕ) (s : Text)
    → is_slug_char c ≡ true
    → matches_words begun (c ∷ s) ≡ matches_words true s
unfolding matches_words
words-char begun c s h = rw h refl

words-other :
    (begun : Bool) (c : ℕ) (s : Text)
    → is_slug_char c ≡ false
    → matches_words begun (c ∷ s) ≡ (begun && is_hyphen c && matches_words false s)
unfolding matches_words is_hyphen
words-other begun c s h = rw h refl

-- What has to hold after a word's last letter, and before a word.
after_word : (p q r e : Bool) → (p && (q && not r && e)) ≡ (((p && not r) && q) && e)
after_word true true true e = refl
after_word true true false e = refl
after_word true false true e = refl
after_word true false false e = refl
after_word false q r e = refl

no_word : (p r q e : Bool) → false ≡ (p && r && q && not p && e)
no_word true true true e = refl
no_word true true false e = refl
no_word true false q e = refl
no_word false r q e = refl

hyphen_alone : (p e : Bool) → false ≡ (p && not p && e)
hyphen_alone true e = refl
hyphen_alone false e = refl

kept_start : (p q e : Bool) → q ≡ true → (p && e) ≡ (p && q && e)
kept_start true q e h = rw h refl
kept_start false q e h = refl

words-nil : (begun : Bool) → matches_words begun [] ≡ begun
unfolding matches_words
words-nil begun = refl

one_hyphen : (p : Bool) → (p && false) ≡ (p && not p)
one_hyphen true = refl
one_hyphen false = refl

words-is_slug :
    (s : Text)
    → ((a : ℕ)
        → is_slug_char a ≡ true
        → matches_words true s ≡ (spaced (a ∷ s) && ends_kept is_hyphen (a ∷ s)))
      × (matches_words false s ≡ (is_filled s && is_slug s))
words-is_slug [] = ((λ a h. words-nil true ∙ rw (h, char_not_hyphen a h) refl), words-nil false)
words-is_slug (c ∷ []) = elim (Bool-cases (is_slug_char c)) [
  | inl h ↦ (
    (λ a ha. words-char true c [] h ∙ words-nil true ∙ rw (ha, h, char_not_hyphen c h) refl),
    words-char false c [] h ∙ words-nil true ∙ rw (h, char_not_hyphen c h) refl,
  )
  | inr h ↦ (
    (λ a ha.
        words-other true c [] h
        ∙ ap (λ (x : Bool). is_hyphen c && x) (words-nil false)
        ∙ rw (ha, h) (one_hyphen (is_hyphen c))),
    words-other false c [] h ∙ rw h (hyphen_alone (is_hyphen c) (not (is_hyphen c))),
  )
]
words-is_slug (c ∷ d ∷ s) =
    let (inside, between) = words-is_slug (d ∷ s) in
    elim (Bool-cases (is_slug_char c)) [
      | inl h ↦ (
        (λ a ha. words-char true c (d ∷ s) h ∙ inside c h ∙ rw ha refl),
        words-char false c (d ∷ s) h
            ∙ inside c h
            ∙ kept_start (spaced (c ∷ d ∷ s)) (not (is_hyphen c)) (ends_kept is_hyphen (d ∷ s))
                (ap not (char_not_hyphen c h)),
      )
      | inr h ↦ (
        (λ a ha.
            words-other true c (d ∷ s) h
            ∙ ap (λ (x : Bool). is_hyphen c && x) between
            ∙ rw (ha, h)
                (after_word (is_hyphen c) (spaced (d ∷ s)) (is_hyphen d)
                  (ends_kept is_hyphen (d ∷ s)))),
        words-other false c (d ∷ s) h
            ∙ rw h (
                no_word (is_hyphen c) (not (is_hyphen d)) (spaced (d ∷ s))
                  (ends_kept is_hyphen (d ∷ s))),
      )
    ]

-- Where the Unicode tables leave lower-case ASCII alone, a text matches the pattern of a key
-- exactly if it is not empty and is its own slug.
pub is_key_iff :
    (u : Unicode) (s : Text) → IsAsciiStable u → (is_key s ≡ true) ↔ ((s ≢ []) × (slugify u s ≡ s))
unfolding is_key
is_key_iff u [] stable = ((λ e. cc), λ (n, e). absurd (n refl))
is_key_iff u (c ∷ s) stable =
    let same = (words-is_slug (c ∷ s)).1 in
    (
      (λ e. ((λ z. cc), slugify-fixed u (c ∷ s) stable (sym same ∙ e))),
      λ (n, e). same ∙ subst (λ (x : Text). is_slug x ≡ true) e (slugify-is_slug u (c ∷ s)),
    )
