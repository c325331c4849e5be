-- ===== src/Http/Bodies/Tests.antt =====
-- Bodies that pass the validation and bodies that do not, and the theorem applied to a key.
use gym_saas_be.Prelude.{◌≡◌, refl, ◌≢◌, ◌↔◌, true, false, [], codes, Unicode, text_eq}
use gym_saas_be.Slugs.{slugify, is_slug_char, is_hyphen}
use gym_saas_be.Organizations.UseCases.{missing, null, given}
use gym_saas_be.Http.Bodies.{
  is_key, is_valid_role, is_valid_organization_patch, matches_words, is_hex_color, is_hex_digit,
}
use gym_saas_be.Http.Bodies.Keys.{is_key_iff}

abbrev ascii : Unicode
ascii = record { nfd = λ s. s; to_lower = λ s. s }

runs : Unit {0}
unfolding is_key is_valid_role is_valid_organization_patch matches_words is_slug_char is_hyphen
    is_hex_color is_hex_digit text_eq
runs = tt

two_hyphens : is_key (codes "front--desk") ≡ false
unfolding runs
two_hyphens = refl

-- The global level is for the platform's own roles.
no_global_role :
    is_valid_role (given (codes "root")) (given (codes "Root")) missing (given 10) ≡ false
unfolding runs
no_global_role = refl

desk_role :
    is_valid_role (given (codes "front-desk")) (given (codes "Desk")) missing (given 1) ≡ true
unfolding runs
desk_role = refl

-- A name that is null passes.
null_name :
    is_valid_organization_patch (record {
      name = null;
      primary_color = given (codes "#0F62FE");
      secondary_color = missing;
      font_family = given (codes "Inter");
    })
    ≡ true
unfolding runs
null_name = refl

is_key_iff_example :
    (is_key (codes "front-desk") ≡ true)
    ↔ ((codes "front-desk" ≢ []) × (slugify ascii (codes "front-desk") ≡ codes "front-desk"))
is_key_iff_example =
    is_key_iff ascii (codes "front-desk")
      (record { nfd_ascii = λ s h. refl; to_lower_ascii = λ s h. refl })
