-- ===== src/Http/Bodies.antt =====
-- The bodies of requests, modules/*/interfaces/dto: what their decorators ask of the values that
-- are left after the conversion of the pipe of validation. Whether a text is an email or a UUID is
-- the validation library's and an argument. The length of a text is its number of characters.
pub mod Keys
mod Tests
use gym_saas_be.Prelude.{
  ℕ, Bool, true, false, ◌&&◌, ◌||◌, List, [], ◌∷◌, Text, codes, length, any, all, leb, ◌==◌,
  text_eq, if◌then◌else◌,
}
use gym_saas_be.Slugs.{is_hyphen, is_slug_char}
use gym_saas_be.Organizations.UseCases.{Field, missing, null, given, UpdateOrganizationCommand}

-- A value that must be there, and one with `@IsOptional()`.
abbrev pub required : {A : Type 0} → (A → Bool) → Field A → Bool
required p (given a) = p a
required p null = false
required p missing = false

abbrev pub optional : {A : Type 0} → (A → Bool) → Field A → Bool
optional p (given a) = p a
optional p null = true
optional p missing = true

-- `@MinLength` and `@MaxLength`.
abbrev pub in_length : ℕ → ℕ → Text → Bool
in_length min max s = leb min (length s) && leb (length s) max

unfoldable pub is_valid_login : (Text → Bool) → (email password : Field Text) → Bool
is_valid_login is_email email password =
    required (λ s. is_email s && in_length 0 320 s) email && required (in_length 1 128) password

unfoldable pub is_valid_registration :
    (Text → Bool) → (email password name organization_name : Field Text) → Bool
is_valid_registration is_email email password name organization_name =
    required (λ s. is_email s && in_length 0 320 s) email
    && required (in_length 8 128) password
    && required (in_length 1 255) name
    && required (in_length 1 255) organization_name

unfoldable pub is_valid_member_role : (Text → Bool) → Field Text → Bool
is_valid_member_role is_uuid role_id = required is_uuid role_id

unfoldable pub is_valid_organization : Field Text → Bool
is_valid_organization name = required (in_length 1 255) name

-- `HEX_COLOR_REGEX`.
unfoldable pub is_hex_digit : ℕ → Bool
is_hex_digit c =
    (leb b'0' c && leb c b'9') || (leb b'a' c && leb c b'f') || (leb b'A' c && leb c b'F')

unfoldable pub is_hex_color : Text → Bool
unfolding is_hex_digit
is_hex_color [] = false
is_hex_color (c ∷ s) = c == b'#' && length s == 6 && all s is_hex_digit

abbrev pub organization_fonts : List Text
organization_fonts =
    codes "system"
    ∷ codes "Inter"
    ∷ codes "Roboto"
    ∷ codes "Poppins"
    ∷ codes "Montserrat"
    ∷ codes "Lora"
    ∷ []

unfoldable pub is_valid_organization_patch : UpdateOrganizationCommand → Bool
unfolding is_hex_color text_eq
is_valid_organization_patch patch =
    optional (in_length 1 255) patch.name
    && optional is_hex_color patch.primary_color
    && optional is_hex_color patch.secondary_color
    && optional (λ s. any organization_fonts (text_eq s)) patch.font_family

-- The pattern of a key, `^[a-z0-9]+(-[a-z0-9]+)*$`: the flag says that a word has begun, so that it
-- may end.
unfoldable pub matches_words : Bool → Text → Bool
unfolding is_slug_char is_hyphen
matches_words begun [] = begun
matches_words begun (c ∷ s) =
    let inside = matches_words true s in
    let between = matches_words false s in
    if is_slug_char c then inside else begun && is_hyphen c && between

unfoldable pub is_key : Text → Bool
unfolding matches_words
is_key s = matches_words false s

-- `ASSIGNABLE_HIERARCHY_LEVELS`: SELF and ORGANIZATION, never GLOBAL.
abbrev pub is_assignable_level : ℕ → Bool
is_assignable_level level = level == 1 || level == 5

unfoldable pub is_valid_role :
    (key name description : Field Text) → (hierarchy_level : Field ℕ) → Bool
unfolding is_key
is_valid_role key name description hierarchy_level =
    required (λ s. in_length 2 100 s && is_key s) key
    && required (in_length 1 100) name
    && optional (in_length 0 255) description
    && required is_assignable_level hierarchy_level

unfoldable pub is_valid_role_patch :
    (name description : Field Text) → (hierarchy_level : Field ℕ) → Bool
is_valid_role_patch name description hierarchy_level =
    optional (in_length 1 100) name
    && optional (in_length 0 255) description
    && optional is_assignable_level hierarchy_level

unfoldable pub is_valid_permission_list : Field (List Text) → Bool
is_valid_permission_list permission_codes = required (λ l. leb (length l) 200) permission_codes

unfoldable pub is_valid_profile_patch : Field Text → Bool
is_valid_profile_patch name = optional (in_length 1 255) name
