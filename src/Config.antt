-- ===== src/Config.antt =====
-- config/: what the server derives from the variables of the environment, which are arguments.
pub mod Origins
pub mod Allowlist
pub mod Environment
mod Tests
use gym_saas_be.Prelude.{
  ℕ, Bool, true, false, Option, none, some, List, [], ◌∷◌, Text, codes, text_eq, trim, ◌==◌,
  if◌then◌else◌,
}

abbrev pub default_frontend_url : Text
default_frontend_url = codes "http://localhost:5173"

abbrev pub cons_first : ℕ → List Text → List Text
cons_first c [] = (c ∷ []) ∷ []
cons_first c (s ∷ rest) = (c ∷ s) ∷ rest

-- `s.split(',')`, for a separator of one character.
unfoldable pub split : ℕ → Text → List Text
split separator [] = [] ∷ []
split separator (c ∷ s) =
    let rest = split separator s in if c == separator then [] ∷ rest else cons_first c rest

abbrev pub is_filled : Text → Bool
is_filled [] = false
is_filled (c ∷ s) = true

-- `.map((origin) => origin.trim()).filter(Boolean)`.
unfoldable pub trimmed : List Text → List Text
unfolding trim
trimmed [] = []
trimmed (s ∷ rest) = let more = trimmed rest in if is_filled (trim s) then trim s ∷ more else more

unfoldable pub without : Text → List Text → List Text
without s [] = []
without s (x ∷ rest) = let more = without s rest in if text_eq x s then more else x ∷ more

-- `[...new Set(origins)]`: the first of equal ones stays.
unfoldable pub unique : List Text → List Text
unfolding without
unique [] = []
unique (s ∷ rest) = s ∷ without s (unique rest)

abbrev pub filled_or : Text → Text → Text
filled_or [] other = other
filled_or (c ∷ s) other = c ∷ s

unfoldable pub frontend_origin : Option Text → Text
unfolding trim
frontend_origin none = default_frontend_url
frontend_origin (some url) = filled_or (trim url) default_frontend_url

abbrev pub origins_or : List Text → Option Text → List Text
unfolding unique frontend_origin
origins_or [] frontend_url = frontend_origin frontend_url ∷ []
origins_or (s ∷ rest) frontend_url = unique (s ∷ rest)

unfoldable pub configured : Option Text → List Text
unfolding split trimmed
configured none = []
configured (some origins) = trimmed (split b',' origins)

unfoldable pub resolve_cors_origins : (cors_origins frontend_url : Option Text) → List Text
unfolding configured origins_or
resolve_cors_origins cors_origins frontend_url = origins_or (configured cors_origins) frontend_url
