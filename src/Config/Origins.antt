-- ===== src/Config/Origins.antt =====
-- config/cors.config.ts: lists of texts, trimmed and without repetitions.
use mathlib.Core.List.{Memᴰ}
use gym_saas_be.Prelude.{
  ◌≡◌, refl, ◌≢◌, ◌↔◌, ◌⊎◌, Bool, true, List, [], ◌∷◌, Text, text_eq, text_eq_iff, All, trim,
  trim-trim, Bool-cases, inl, inr, sym, ◌∙◌, subst, if◌then◌else◌, ap,
}
use gym_saas_be.Config.{is_filled, trimmed, without, unique}

-- A text that is not empty and has no white space around it.
abbrev pub IsClean : Text → Type 0
IsClean s = (s ≢ []) × (trim s ≡ s)

abbrev pub Distinct : List Text → Type 0
Distinct [] = Unit
Distinct (s ∷ rest) = All (λ x. x ≢ s) rest × Distinct rest

filled : (s : Text) → is_filled s ≡ true → s ≢ []
filled [] e = cc
filled (c ∷ s) e = cc

-- What is left after trimming is clean, and comes from the pieces that are not blank.
pub trimmed-IsClean : (l : List Text) → All IsClean (trimmed l)
unfolding trimmed
trimmed-IsClean [] = tt
trimmed-IsClean (s ∷ rest) = elim (Bool-cases (is_filled (trim s))) [
  | inl q ↦ rw q ((filled (trim s) q, trim-trim s), trimmed-IsClean rest)
  | inr q ↦ rw q (trimmed-IsClean rest)
]

without-All : (P : Text → Type 0) (s : Text) (l : List Text) → All P l → All P (without s l)
unfolding without
without-All P s [] a = tt
without-All P s (x ∷ rest) a = elim (Bool-cases (text_eq x s)) [
  | inl q ↦ rw q (without-All P s rest a.1)
  | inr q ↦ rw q (a.0, without-All P s rest a.1)
]

without-gone : (s : Text) (l : List Text) → All (λ x. x ≢ s) (without s l)
unfolding without
without-gone s [] = tt
without-gone s (x ∷ rest) = elim (Bool-cases (text_eq x s)) [
  | inl q ↦ rw q (without-gone s rest)
  | inr q ↦ rw q ((λ e. let h = (text_eq_iff x s).1 e in cc), without-gone s rest)
]

without-Distinct : (s : Text) (l : List Text) → Distinct l → Distinct (without s l)
unfolding without
without-Distinct s [] d = tt
without-Distinct s (x ∷ rest) d = elim (Bool-cases (text_eq x s)) [
  | inl q ↦ rw q (without-Distinct s rest d.1)
  | inr q ↦ rw q (without-All _ s rest d.0, without-Distinct s rest d.1)
]

pub unique-All : (P : Text → Type 0) (l : List Text) → All P l → All P (unique l)
unfolding unique
unique-All P [] a = tt
unique-All P (s ∷ rest) a = (a.0, without-All P s (unique rest) (unique-All P rest a.1))

pub unique-Distinct : (l : List Text) → Distinct (unique l)
unfolding unique
unique-Distinct [] = tt
unique-Distinct (s ∷ rest) =
    (without-gone s (unique rest), without-Distinct s (unique rest) (unique-Distinct rest))

mem-without : (o s : Text) (l : List Text) → o ≢ s → Memᴰ o l → Memᴰ o (without s l)
unfolding without
mem-without o s [] n m = elim m [ ]
mem-without o s (x ∷ rest) n (Memᴰ.head e) = elim (Bool-cases (text_eq x s)) [
  | inl q ↦ absurd (n (e ∙ (text_eq_iff x s).0 q))
  | inr q ↦ rw q (Memᴰ.head e)
]
mem-without o s (x ∷ rest) n (Memᴰ.tail m) = elim (Bool-cases (text_eq x s)) [
  | inl q ↦ rw q (mem-without o s rest n m)
  | inr q ↦ rw q (Memᴰ.tail (mem-without o s rest n m))
]

pub mem-cases : (o s : Text) (l : List Text) → Memᴰ o (s ∷ l) → (o ≡ s) ⊎ Memᴰ o l
mem-cases o s l (Memᴰ.head e) = inl e
mem-cases o s l (Memᴰ.tail m) = inr m

without-mem : (o s : Text) (l : List Text) → Memᴰ o (without s l) → Memᴰ o l
unfolding without
without-mem o s [] m = m
without-mem o s (x ∷ rest) m = elim (Bool-cases (text_eq x s)) [
  | inl q ↦ Memᴰ.tail (
      without-mem o s rest
        (subst (λ (b : Bool). Memᴰ o (if b then without s rest else x ∷ without s rest)) q m))
  | inr q ↦
      elim (mem-cases o x (without s rest)
        (subst (λ (b : Bool). Memᴰ o (if b then without s rest else x ∷ without s rest)) q m)) [
          | inl e ↦ Memᴰ.head e
          | inr m' ↦ Memᴰ.tail (without-mem o s rest m')
        ]
]

-- A set has the members of its list, each once.
pub unique_iff : (o : Text) (l : List Text) → Memᴰ o (unique l) ↔ Memᴰ o l
unfolding unique
unique_iff o [] = (λ m. m, λ m. m)
unique_iff o (s ∷ rest) = (
  (λ m. elim (mem-cases o s (without s (unique rest)) m) [
    | inl e ↦ Memᴰ.head e
    | inr m' ↦ Memᴰ.tail ((unique_iff o rest).0 (without-mem o s (unique rest) m'))
  ]),
  λ m. elim (Bool-cases (text_eq o s)) [
    | inl q ↦ Memᴰ.head ((text_eq_iff o s).0 q)
    | inr q ↦ elim (mem-cases o s rest m) [
      | inl e ↦ Memᴰ.head e
      | inr m' ↦ Memᴰ.tail (
          mem-without o s (unique rest) (λ e. let h = (text_eq_iff o s).1 e in cc)
            ((unique_iff o rest).1 m'))
    ]
  ],
)

-- A piece of the list gives the origin.
abbrev pub IsPiece : List Text → Text → Type 0
IsPiece l o = (o ≢ []) × (p : Text) × Memᴰ p l × (trim p ≡ o)

is_filled_of : (s : Text) → s ≢ [] → is_filled s ≡ true
is_filled_of [] n = absurd (n refl)
is_filled_of (c ∷ s) n = refl

pub trimmed_iff : (o : Text) (l : List Text) → Memᴰ o (trimmed l) ↔ IsPiece l o
unfolding trimmed
trimmed_iff o [] = ((λ m. elim m [ ]), λ (n, p, m, e). elim m [ ])
trimmed_iff o (s ∷ rest) = (
  (λ m. elim (Bool-cases (is_filled (trim s))) [
    | inl q ↦
        elim (mem-cases o (trim s) (trimmed rest)
          (subst (λ (b : Bool). Memᴰ o (if b then trim s ∷ trimmed rest else trimmed rest)) q m)) [
            | inl e ↦ ((λ z. filled (trim s) q (sym e ∙ z)), s, Memᴰ.head refl, sym e)
            | inr m' ↦ later ((trimmed_iff o rest).0 m')
          ]
    | inr q ↦ later (
        (trimmed_iff o rest).0
          (subst (λ (b : Bool). Memᴰ o (if b then trim s ∷ trimmed rest else trimmed rest)) q m))
  ]),
  λ (n, p, m, e). elim (mem-cases p s rest m) [
    | inl same ↦
        let at : o ≡ trim s = sym e ∙ ap trim same in
        let q : is_filled (trim s) ≡ true = is_filled_of (trim s) (λ z. n (at ∙ z)) in
        rw q (Memᴰ.head at)
    | inr m' ↦ elim (Bool-cases (is_filled (trim s))) [
      | inl q ↦ rw q (Memᴰ.tail ((trimmed_iff o rest).1 (n, p, m', e)))
      | inr q ↦ rw q ((trimmed_iff o rest).1 (n, p, m', e))
    ]
  ],
)
  where
    later : IsPiece rest o → IsPiece (s ∷ rest) o
    later (n, p, m, e) = (n, p, Memᴰ.tail m, e)
