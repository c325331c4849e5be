-- ===== src/Durations/Pattern.antt =====
-- What common/lib/duration.ts accepts, set against its regular expression.
use gym_saas_be.Prelude.{
  ℕ, ◌*◌, ◌++◌, ◌≡◌, refl, ◌≢◌, ◌↔◌, Bool, true, Option, none, some, [], ◌∷◌, Text, codes, text_eq,
  text_eq_iff, all, arith, with_default, trim, is_space, strip_start, starts_kept, read, ap, ◌∙◌,
}
use gym_saas_be.Errors.{ok}
use gym_saas_be.Durations.{
  DurationUnit, milliseconds, seconds, minutes, hours, days, unit_ms, unit_name, unit_of, is_digit,
  leading, to_ms, parse_duration_ms,
}

-- A text matches the pattern, with a value in milliseconds.
pub record IsDuration (text : Text) (value : ℕ) : Type 0 where
  pub number : Text
  pub gap : Text
  pub unit : Option DurationUnit
  pub parts : text ≡ number ++ (gap ++ unit_name unit)
  pub digital : all number is_digit ≡ true
  pub nonempty : number ≢ []
  pub blank : all gap is_space ≡ true
  pub amount : value ≡ read number * unit_ms (with_default milliseconds unit)

leading-all : (p : ℕ → Bool) (s : Text) → all (leading p s) p ≡ true
unfolding leading
leading-all p [] = refl
leading-all p (c ∷ s) = ground (arith, leading-all p s)

leading-strip_start : (p : ℕ → Bool) (s : Text) → s ≡ leading p s ++ strip_start p s
unfolding leading strip_start
leading-strip_start p [] = refl
leading-strip_start p (c ∷ s) = ground (arith, leading-strip_start p s)

leading-append :
    (p : ℕ → Bool) (s t : Text)
    → all s p ≡ true
    → starts_kept p t ≡ true
    → (leading p (s ++ t) ≡ s) × (strip_start p (s ++ t) ≡ t)
unfolding leading strip_start
leading-append p [] [] h k = ground arith
leading-append p [] (c ∷ t) h k = ground arith
leading-append p (c ∷ s) t h k = ground (arith, leading-append p s t)

unit_of-name : (text : Text) (u : Option DurationUnit) → unit_of text ≡ some u → text ≡ unit_name u
unfolding unit_of
unit_of-name [] u h = ground arith
unit_of-name (c ∷ s) u h = ground (
  arith,
  text_eq_iff (c ∷ s) (codes "ms"),
  text_eq_iff (c ∷ s) (codes "s"),
  text_eq_iff (c ∷ s) (codes "m"),
  text_eq_iff (c ∷ s) (codes "h"),
  text_eq_iff (c ∷ s) (codes "d"),
)

name-unit_of : (u : Option DurationUnit) → unit_of (unit_name u) ≡ some u
unfolding unit_of text_eq
name-unit_of none = refl
name-unit_of (some milliseconds) = refl
name-unit_of (some seconds) = refl
name-unit_of (some minutes) = refl
name-unit_of (some hours) = refl
name-unit_of (some days) = refl

unit_name-kept : (u : Option DurationUnit) → starts_kept is_space (unit_name u) ≡ true
unfolding is_space
unit_name-kept none = refl
unit_name-kept (some milliseconds) = refl
unit_name-kept (some seconds) = refl
unit_name-kept (some minutes) = refl
unit_name-kept (some hours) = refl
unit_name-kept (some days) = refl

gap-kept :
    (gap : Text) (u : Option DurationUnit)
    → all gap is_space ≡ true
    → starts_kept is_digit (gap ++ unit_name u) ≡ true
unfolding is_space
gap-kept (c ∷ gap) u h = ground arith
gap-kept [] none h = refl
gap-kept [] (some milliseconds) h = refl
gap-kept [] (some seconds) h = refl
gap-kept [] (some minutes) h = refl
gap-kept [] (some hours) h = refl
gap-kept [] (some days) h = refl

to_ms-cases :
    (input value : Text) (u : Option (Option DurationUnit)) (v : ℕ)
    → to_ms input value u ≡ ok v
    → (unit : Option DurationUnit) × (u ≡ some unit)
      × (value ≢ [])
      × (v ≡ read value * unit_ms (with_default milliseconds unit))
unfolding to_ms
to_ms-cases input [] u v h = ground arith
to_ms-cases input (c ∷ s) none v h = ground arith
to_ms-cases input (c ∷ s) (some unit) v h = (unit, refl, ground arith, ground arith)

to_ms-ok :
    (input value : Text) (u : Option DurationUnit)
    → value ≢ []
    → to_ms input value (some u) ≡ ok (read value * unit_ms (with_default milliseconds u))
unfolding to_ms
to_ms-ok input [] u n = ground arith
to_ms-ok input (c ∷ s) u n = refl

parsed-IsDuration :
    (input : Text) (v : ℕ) → parse_duration_ms input ≡ ok v → IsDuration (trim input) v
unfolding parse_duration_ms
parsed-IsDuration input v h =
    let text = trim input in
    let rest = strip_start is_digit text in
    let (unit, e, filled, amount) =
      to_ms-cases input (leading is_digit text) (unit_of (strip_start is_space rest)) v h in
    record {
      number = leading is_digit text;
      gap = leading is_space rest;
      unit = unit;
      parts =
          leading-strip_start is_digit text
          ∙ ap (λ (r : Text). leading is_digit text ++ r)
              (leading-strip_start is_space rest
                ∙ ap (λ (r : Text). leading is_space rest ++ r) (unit_of-name _ unit e));
      digital = leading-all is_digit text;
      nonempty = filled;
      blank = leading-all is_space rest;
      amount = amount;
    }

IsDuration-parsed :
    (input : Text) (v : ℕ) → IsDuration (trim input) v → parse_duration_ms input ≡ ok v
unfolding parse_duration_ms
IsDuration-parsed input v d =
    let (a, b) =
      leading-append is_digit d.number (d.gap ++ unit_name d.unit) d.digital
        (gap-kept d.gap d.unit d.blank) in
    let (x, y) = leading-append is_space d.gap (unit_name d.unit) d.blank (unit_name-kept d.unit) in
    rw (d.parts, a, b, y, name-unit_of d.unit, d.amount) (to_ms-ok input d.number d.unit d.nonempty)

-- A text is read as a duration exactly if, without the white space around it, it is a non-empty run
-- of digits, then white space, then one of the five units or nothing, and what is read is the
-- number times the milliseconds of the unit, one if there is none.
pub parse_duration_ms_iff :
    (input : Text) (v : ℕ) → (parse_duration_ms input ≡ ok v) ↔ IsDuration (trim input) v
parse_duration_ms_iff input v = (parsed-IsDuration input v, IsDuration-parsed input v)
