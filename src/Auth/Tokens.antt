-- ===== src/Auth/Tokens.antt =====
-- auth/infrastructure/jwt-token.service.ts: the tokens of a session. Signing is the library's, an
-- argument with what it promises: a token verifies with the secret that signed it until it expires,
-- and with no other.
use gym_saas_be.Prelude.{
  ◌+◌, ◌≡◌, ◌≢◌, ◌<◌, ℕ, Option, none, some, Text, codes, sym, refl, with_default,
}
use gym_saas_be.Store.{Time}
use gym_saas_be.Errors.{Result, ok, err, unauthorized}
use gym_saas_be.Sessions.Service.{TokenPayload, TokenPair}

pub record Jwt : Type 0 where
  pub sign : Time → TokenPayload → (secret expires_in : Text) → Text
  pub verify : Time → Text → (secret : Text) → Option TokenPayload
  -- How long `expires_in` is, in milliseconds.
  pub lifetime : Text → ℕ
  pub verify_signed :
      (now now' : Time) (claims : TokenPayload) (secret expires_in : Text)
      → now' < now + lifetime expires_in
      → verify now' (sign now claims secret expires_in) secret ≡ some claims
  pub verify_foreign :
      (now now' : Time) (claims : TokenPayload) (secret other expires_in : Text)
      → other ≢ secret
      → verify now' (sign now claims secret expires_in) other ≡ none

-- The variables of the environment; the expirations have defaults.
pub record JwtEnvironment : Type 0 where
  pub access_secret : Text
  pub access_expires_in : Option Text
  pub refresh_secret : Text
  pub refresh_expires_in : Option Text

abbrev pub access_lifetime : JwtEnvironment → Text
access_lifetime e = with_default (codes "15m") e.access_expires_in

abbrev pub refresh_lifetime : JwtEnvironment → Text
refresh_lifetime e = with_default (codes "7d") e.refresh_expires_in

module _ (j : Jwt) (e : JwtEnvironment) where
  unfoldable pub issue_tokens : Time → TokenPayload → TokenPair
  issue_tokens now payload = record {
    access_token = j.sign now payload e.access_secret (access_lifetime e);
    refresh_token = j.sign now payload e.refresh_secret (refresh_lifetime e);
  }

  abbrev pub verified : Option TokenPayload → Result TokenPayload
  verified none = err (unauthorized (codes "Invalid or expired token"))
  verified (some claims) = ok claims

  unfoldable pub verify_token : Time → Text → Text → Result TokenPayload
  verify_token now token secret = verified (j.verify now token secret)

  unfoldable pub verify_access : Time → Text → Result TokenPayload
  unfolding verify_token
  verify_access now token = verify_token now token e.access_secret

  unfoldable pub verify_refresh : Time → Text → Result TokenPayload
  unfolding verify_token
  verify_refresh now token = verify_token now token e.refresh_secret

  -- If the secrets differ, the access token that is issued gives its claims back until it expires,
  -- and is never taken for a refresh token, nor the refresh token for an access token, which gives
  -- its claims back as long as it lives.
  pub issue_tokens_lem :
      (now : Time) (payload : TokenPayload)
      → e.access_secret ≢ e.refresh_secret
      → let tokens = issue_tokens now payload in
        (now' : Time)
        → (now' < now + j.lifetime (access_lifetime e)
            → verify_access now' tokens.access_token ≡ ok payload)
          × (now' < now + j.lifetime (refresh_lifetime e)
              → verify_refresh now' tokens.refresh_token ≡ ok payload)
          × (verify_refresh now' tokens.access_token
              ≡ err (unauthorized (codes "Invalid or expired token")))
          × (verify_access now' tokens.refresh_token
              ≡ err (unauthorized (codes "Invalid or expired token")))
  unfolding issue_tokens verify_access verify_refresh verify_token
  issue_tokens_lem now payload differ now' = (
    (λ h. rw (j.verify_signed now now' payload e.access_secret (access_lifetime e) h) refl),
    (λ h. rw (j.verify_signed now now' payload e.refresh_secret (refresh_lifetime e) h) refl),
    rw
        (j.verify_foreign now now' payload e.access_secret e.refresh_secret (access_lifetime e)
          (λ q. differ (sym q)))
        refl,
    rw
        (j.verify_foreign now now' payload e.refresh_secret e.access_secret (refresh_lifetime e)
          differ)
        refl,
  )
