-- ===== src/Durations.antt =====
-- common/lib/duration.ts: lifetimes such as `7d` or `30m`, in milliseconds.
pub mod Pattern
mod Tests
use gym_saas_be.Prelude.{
  ℕ, ◌*◌, ◌++◌, ◌≡◌, refl, ◌≢◌, ◌↔◌, ◌&&◌, inl, inr, Bool, true, false, not, Option, none, some,
  List, [], ◌∷◌, Text, codes, text_eq, text_eq_iff, leb, all, arith, Bool-cases, Option-cases,
  with_default, trim, is_space, strip_start, starts_kept, if◌then◌else◌, read, ap, ◌∙◌, sym,
}
use gym_saas_be.Errors.{Result, ok, err, plain_error}

-- The keys of `UNIT_MS`.
pub data DurationUnit : Type 0 where
  milliseconds seconds minutes hours days : DurationUnit

unfoldable pub unit_ms : DurationUnit → ℕ
unit_ms milliseconds = 1
unit_ms seconds = 1000
unit_ms minutes = 60000
unit_ms hours = 3600000
unit_ms days = 86400000

abbrev pub unit_name : Option DurationUnit → Text
unit_name none = []
unit_name (some milliseconds) = codes "ms"
unit_name (some seconds) = codes "s"
unit_name (some minutes) = codes "m"
unit_name (some hours) = codes "h"
unit_name (some days) = codes "d"

-- The second group of the pattern, `(ms|s|m|h|d)?`, if it matches the whole text.
unfoldable pub unit_of : Text → Option (Option DurationUnit)
unit_of [] = some none
unit_of (c ∷ s) =
    let t = c ∷ s in
    if text_eq t (codes "ms")
    then some (some milliseconds)
    else if text_eq t (codes "s")
    then some (some seconds)
    else if text_eq t (codes "m")
    then some (some minutes)
    else if text_eq t (codes "h")
    then some (some hours)
    else if text_eq t (codes "d")
    then some (some days)
    else none

abbrev pub is_digit : ℕ → Bool
is_digit c = leb 48 c && leb c 57

-- The longest start of a text that has the test.
unfoldable pub leading : (ℕ → Bool) → Text → Text
leading p [] = []
leading p (c ∷ s) = if p c then c ∷ leading p s else []

unfoldable pub to_ms : Text → Text → Option (Option DurationUnit) → Result ℕ
unfolding unit_ms
to_ms input [] u = err (plain_error (codes "Invalid duration: \"" ++ (input ++ codes "\"")))
to_ms input (c ∷ s) none = err (plain_error (codes "Invalid duration: \"" ++ (input ++ codes "\"")))
to_ms input (c ∷ s) (some u) = ok (read (c ∷ s) * unit_ms (with_default milliseconds u))

-- The groups of the pattern are the longest run of digits and what follows it and the white space.
unfoldable pub parse_duration_ms : Text → Result ℕ
unfolding trim leading strip_start is_space unit_of to_ms
parse_duration_ms input =
    let text = trim input in
    let value = leading is_digit text in
    let rest = strip_start is_digit text in to_ms input value (unit_of (strip_start is_space rest))
