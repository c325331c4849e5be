-- ===== src/Durations/Tests.antt =====
-- Durations at concrete texts.
use gym_saas_be.Prelude.{
  ◌≡◌, refl, ◌↔◌, codes, trim, is_space, strip, strip_start, strip_end, text_eq,
}
use gym_saas_be.Errors.{ok, err, plain_error}
use gym_saas_be.Durations.{parse_duration_ms, unit_ms, unit_of, leading, to_ms}
use gym_saas_be.Durations.Pattern.{IsDuration, parse_duration_ms_iff}

week : parse_duration_ms (codes " 7 d") ≡ ok 604800000
unfolding parse_duration_ms trim is_space strip strip_start strip_end text_eq unit_of unit_ms
    leading to_ms
week = refl

no_number : parse_duration_ms (codes "d") ≡ err (plain_error (codes "Invalid duration: \"d\""))
unfolding parse_duration_ms trim is_space strip strip_start strip_end text_eq unit_of unit_ms
    leading to_ms
no_number = refl

parse_duration_ms_iff_example :
    (parse_duration_ms (codes " 7 d") ≡ ok 604800000) ↔ IsDuration (trim (codes " 7 d")) 604800000
parse_duration_ms_iff_example = parse_duration_ms_iff (codes " 7 d") 604800000
