-- ===== src/Slugs/Tests.antt =====
-- Slugs of some names, and the theorems applied to one.
use gym_saas_be.Prelude.{
  ◌≡◌, refl, true, codes, map, ◌+◌, ℕ, leb, ◌&&◌, if◌then◌else◌, Unicode, trim, Text, all, [], ◌∷◌,
  arith,
}
use gym_saas_be.Slugs.{slugify, is_slug}
use gym_saas_be.Slugs.Charset.{slugify-is_slug}
use gym_saas_be.Slugs.Fixed.{IsAsciiStable, is_lower_ascii}

abbrev lower_char : ℕ → ℕ
lower_char c = if leb 65 c && leb c 90 then c + 32 else c

-- Tables that know ASCII only.
abbrev ascii : Unicode
ascii = record { nfd = λ s. s; to_lower = map lower_char }

runs : Unit {0}
unfolding slugify trim
runs = tt

spaces_and_signs : slugify ascii (codes "  Iron Gym & Co. ") ≡ codes "iron-gym-co"
unfolding runs
spaces_and_signs = refl

only_signs : slugify ascii (codes "***") ≡ codes ""
unfolding runs
only_signs = refl

map-lower : (s : Text) → all s is_lower_ascii ≡ true → map lower_char s ≡ s
map-lower [] h = refl
map-lower (c ∷ s) h = ground (arith, map-lower s)

ascii-IsAsciiStable : IsAsciiStable ascii
ascii-IsAsciiStable = record { nfd_ascii = λ s h. refl; to_lower_ascii = map-lower }

slugify-is_slug_example : is_slug (slugify ascii (codes "  Iron Gym & Co. ")) ≡ true
slugify-is_slug_example = slugify-is_slug ascii (codes "  Iron Gym & Co. ")
