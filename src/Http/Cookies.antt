-- ===== src/Http/Cookies.antt =====
-- modules/auth/interfaces/auth-cookies.ts and the cookie of the active organization.
use gym_saas_be.Prelude.{Bool, true, Option, none, some, List, [], ◌∷◌, Text, codes, ◌≡◌, refl, All}
use mathlib.Core.List.{Memᴰ}
use gym_saas_be.Sessions.Service.{TokenPair}

pub record CookieOptions : Type 0 where
  pub http_only : Bool
  pub same_site : Text
  pub secure : Bool
  pub domain : Text
  pub path : Text

-- A call of `res.cookie`, with the value, or of `res.clearCookie`, with none.
pub record SetCookie : Type 0 where
  pub name : Text
  pub value : Option Text
  pub options : CookieOptions

-- What the constructors read from the configuration.
pub record CookieConfig : Type 0 where
  pub secure : Bool
  pub domain : Text
  pub active_org_cookie : Text

abbrev pub access_token_cookie : Text
access_token_cookie = codes "access_token"

abbrev pub refresh_token_cookie : Text
refresh_token_cookie = codes "refresh_token"

abbrev pub refresh_cookie_path : Text
refresh_cookie_path = codes "/auth"

abbrev pub legacy_refresh_cookie_path : Text
legacy_refresh_cookie_path = codes "/auth/refresh"

unfoldable pub base_options : CookieConfig → CookieOptions
base_options c = record {
  http_only = true;
  same_site = codes "lax";
  secure = c.secure;
  domain = c.domain;
  path = codes "/";
}

abbrev at_path : Text → CookieOptions → CookieOptions
at_path p o = record o { path = p }

unfoldable pub set_session_cookies : CookieConfig → TokenPair → List SetCookie
unfolding base_options
set_session_cookies c tokens =
    record {
      name = access_token_cookie;
      value = some tokens.access_token;
      options = base_options c;
    }
    ∷ record {
      name = refresh_token_cookie;
      value = some tokens.refresh_token;
      options = at_path refresh_cookie_path (base_options c);
    }
    ∷ []

abbrev cleared : Text → CookieOptions → SetCookie
cleared n o = record { name = n; value = none; options = o }

unfoldable pub clear_session_cookies : CookieConfig → List SetCookie
unfolding base_options
clear_session_cookies c =
    cleared access_token_cookie (base_options c)
    ∷ cleared refresh_token_cookie (at_path refresh_cookie_path (base_options c))
    ∷ cleared refresh_token_cookie (at_path legacy_refresh_cookie_path (base_options c))
    ∷ []

unfoldable pub set_active_org : CookieConfig → Text → SetCookie
unfolding base_options
set_active_org c organization_id = record {
  name = c.active_org_cookie;
  value = some organization_id;
  options = base_options c;
}

unfoldable pub clear_active_org : CookieConfig → SetCookie
unfolding base_options
clear_active_org c = cleared c.active_org_cookie (base_options c)

-- A response takes back a cookie: it clears one of the same name, domain and path.
abbrev pub Clears : List SetCookie → SetCookie → Type 0
Clears response cookie =
    (c : SetCookie) × Memᴰ c response
    × (c.name ≡ cookie.name)
    × (c.options ≡ cookie.options)
    × (c.value ≡ none)

pub clear_session_cookies-Clears :
    (config : CookieConfig) (tokens : TokenPair)
    → All (Clears (clear_session_cookies config)) (set_session_cookies config tokens)
unfolding set_session_cookies clear_session_cookies base_options
clear_session_cookies-Clears config tokens =
    ((_, Memᴰ.head refl, refl, refl, refl), ((_, Memᴰ.tail (Memᴰ.head refl), refl, refl, refl), tt))
