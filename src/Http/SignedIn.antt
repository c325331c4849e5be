-- ===== src/Http/SignedIn.antt =====
-- auth.controller.ts: what the cookies of a login are good for, until they are given up.
mod Tests
use gym_saas_be.Prelude.{
  ℕ, ◌+◌, ◌<◌, ◌≤◌, ◌≡◌, ◌≢◌, refl, inl, inr, true, false, Option, none, some, List, [], ◌∷◌, ◌++◌,
  Text, text_eq, codes, if◌then◌else◌, arith, sym, ◌∙◌, ap, subst,
}
use gym_saas_be.Store.{Uuid, Time}
use gym_saas_be.Errors.{ended, ok, err, unauthorized}
use gym_saas_be.Entities.{User}
use gym_saas_be.Users.{UserPublicProfile, to_public_profile}
use gym_saas_be.Users.Repository.{find_by_id}
use gym_saas_be.Users.UseCases.{find_user_by_email}
use gym_saas_be.Sessions.Repository.{is_active, revoke_owned}
use gym_saas_be.Sessions.Service.{TokenPayload, TokenPair, start}
use gym_saas_be.Sessions.Start.{start_lem}
use gym_saas_be.Sessions.Revocation.{revoke_owned_lem}
use gym_saas_be.Auth.{LoginCommand, login, logout, validate_claims}
use gym_saas_be.Auth.Renewal.{login_parts, start_tokens, found_by_id}
use gym_saas_be.Http.Cookies.{
  SetCookie, CookieConfig, access_token_cookie, refresh_token_cookie, set_session_cookies,
}
use gym_saas_be.Http.Requests.{
  Backend, HttpRequest, Reply, State, jwt_auth_guard, authenticate, cookie_extractor,
  request_session_metadata, guarded,
}
use gym_saas_be.Http.Auth.{LoginDto, sign_in, sign_out, me, complete_auth, active_cookie}

-- What a response sets a cookie to.
unfoldable pub cookie_value : Text → List SetCookie → Option Text
cookie_value name [] = none
cookie_value name (c ∷ rest) =
    let later = cookie_value name rest in if text_eq c.name name then c.value else later

session-cookies :
    (config : CookieConfig) (tokens : TokenPair) (rest : List SetCookie)
    → (cookie_value access_token_cookie (set_session_cookies config tokens ++ rest)
        ≡ some tokens.access_token)
      × (cookie_value refresh_token_cookie (set_session_cookies config tokens ++ rest)
          ≡ some tokens.refresh_token)
unfolding cookie_value set_session_cookies text_eq
session-cookies config tokens rest = (refl, refl)

module _ (b : Backend) where
  -- A login that went through: the user with this email, a session of theirs, and its tokens.
  pub record Entered (now : Time) (id family_id : Uuid) (request : HttpRequest) (dto : LoginDto)
      (w w' : State b) (reply : Reply UserPublicProfile) : Type 0 where
    pub user : User
    pub known : find_user_by_email b.tables b.unicode dto.email w.db ≡ some user
    pub tokens : TokenPair
    pub started :
        start b.sessions b.session_transactions b.keys now id family_id
          (to_public_profile user)
          (request_session_metadata request)
          w.sessions
        ≡ (ok tokens, w'.sessions)
    pub body : reply.body ≡ to_public_profile user
    pub same_db : w'.db ≡ w.db
    pub access : cookie_value access_token_cookie reply.cookies ≡ some tokens.access_token
    pub refresh : cookie_value refresh_token_cookie reply.cookies ≡ some tokens.refresh_token

  sign_in-Entered :
      (now : Time) (id family_id : Uuid) (request : HttpRequest) (dto : LoginDto) (w w' : State b)
      (reply : Reply UserPublicProfile)
      → sign_in b now id family_id request dto w ≡ (ok reply, w')
      → Entered now id family_id request dto w w' reply
  unfolding sign_in complete_auth
  sign_in-Entered now id family_id request dto w w' reply e =
      let command : LoginCommand = record {
        email = dto.email;
        password = dto.password;
        session = request_session_metadata request;
      } in
      elim (ended (
        login b.tables b.sessions b.session_transactions b.keys b.unicode b.verifiers now id
          family_id command w)) [
            | inr (x, s, q) ↦ absurd (ground arith)
            | inl (r, s, q) ↦
                let (user, known, started, profile, same_db) =
                  login_parts b.tables b.sessions b.session_transactions b.keys b.unicode
                    b.verifiers now id family_id command w s r q in
                let same : (complete_auth b r ≡ reply) × (s ≡ w') = ground arith in
                let (access, refresh) =
                  session-cookies b.cookies r.tokens (active_cookie b r.active_organization_id) in
                subst (λ (x : State b). Entered now id family_id request dto w x reply) (same.1)
                  (subst
                    (λ (x : Reply UserPublicProfile). Entered now id family_id request dto w s x)
                    (same.0)
                    (record {
                      user = user;
                      known = known;
                      tokens = r.tokens;
                      started = started;
                      body = profile;
                      same_db = same_db;
                      access = access;
                      refresh = refresh;
                    }))
          ]

  me_ok :
      (now : Time) (next : HttpRequest) (w : State b) (token : Text) (payload : TokenPayload)
      (user : User)
      → next.access_token ≡ some token
      → b.verify_access now token ≡ some payload
      → is_active b.sessions payload.sub payload.session_id now w.sessions ≡ true
      → find_by_id b.tables payload.sub w.db ≡ some user
      → me b now next w ≡ (ok (to_public_profile user), w)
  unfolding me jwt_auth_guard authenticate cookie_extractor validate_claims
  me_ok now next w token payload user e v a f = ground arith

  me_expired :
      (now : Time) (next : HttpRequest) (w : State b) (token : Text)
      → next.access_token ≡ some token
      → b.verify_access now token ≡ none
      → me b now next w ≡ (err (unauthorized (codes "Unauthorized")), w)
  unfolding me jwt_auth_guard authenticate cookie_extractor
  me_expired now next w token e v = ground arith

  me_inactive :
      (now : Time) (next : HttpRequest) (w : State b) (token : Text) (payload : TokenPayload)
      → next.access_token ≡ some token
      → b.verify_access now token ≡ some payload
      → is_active b.sessions payload.sub payload.session_id now w.sessions ≡ false
      → me b now next w ≡ (err (unauthorized (codes "Session is no longer active")), w)
  unfolding me jwt_auth_guard authenticate cookie_extractor validate_claims
  me_inactive now next w token payload e v a = ground arith

  Entered-payload :
      (now : Time) (id family_id : Uuid) (request : HttpRequest) (dto : LoginDto) (w w' : State b)
      (reply : Reply UserPublicProfile)
      → (h : Entered now id family_id request dto w w' reply)
      → h.tokens
        ≡ b.keys.issue_tokens
            (record { sub = h.user.id; email = h.user.cols.email; session_id = id })
  unfolding to_public_profile
  Entered-payload now id family_id request dto w w' reply h =
      start_tokens b.tables b.sessions b.session_transactions b.keys b.unicode b.verifiers now id
        family_id (to_public_profile h.user) (request_session_metadata request) w.sessions
        w'.sessions h.tokens h.started

  sign_out-revoked :
      (now now' : Time) (next : HttpRequest) (w : State b) (token : Text) (payload : TokenPayload)
      → next.refresh_token ≡ some token
      → token ≢ []
      → b.verifiers.verify token ≡ some payload
      → is_active b.sessions payload.sub payload.session_id now' (sign_out b now next w).1.sessions
        ≡ false
  unfolding sign_out logout
  sign_out-revoked now now' next w [] payload e n v = absurd (n refl)
  sign_out-revoked now now' next w (c ∷ s) payload e n v =
      let revoked =
        (revoke_owned_lem b.sessions payload.sub payload.session_id now now' w.sessions).1 in
      ground (arith, e, v, revoked)

  -- An access token that is issued at this time gives its claims back for so long, and then is taken
  -- for none.
  pub record LivesFor (now : Time) (access_ttl : ℕ) : Type 0 where
    pub fresh :
        (p : TokenPayload) (now' : Time)
        → now' < now + access_ttl
        → b.verify_access now' (b.keys.issue_tokens p).access_token ≡ some p
    pub expired :
        (p : TokenPayload) (now' : Time)
        → now + access_ttl ≤ now'
        → b.verify_access now' (b.keys.issue_tokens p).access_token ≡ none

  -- After a login under a new session id, requests with its cookies are answered with the profile
  -- of the user that the login found, until the lifetime of the access token or of the session is
  -- over; once the access token has expired, such requests are refused. Once the cookies were used
  -- to sign out within the session's lifetime, requests with them are refused as long as the access
  -- token lives, since the session is no longer active, and after that as well. The tokens that are
  -- issued verify, the access token for its lifetime, and the refresh token, which is not empty,
  -- when it is used to sign out.
  pub sign_in-me :
      (now : Time) (access_ttl : ℕ) (id family_id : Uuid) (request next : HttpRequest)
      (dto : LoginDto) (w w' : State b) (reply : Reply UserPublicProfile)
      → id ≢ 0
      → LivesFor now access_ttl
      → ((p : TokenPayload) → b.verifiers.verify (b.keys.issue_tokens p).refresh_token ≡ some p)
      → ((p : TokenPayload) → (b.keys.issue_tokens p).refresh_token ≢ [])
      → sign_in b now id family_id request dto w ≡ (ok reply, w')
      → next.access_token ≡ cookie_value access_token_cookie reply.cookies
      → next.refresh_token ≡ cookie_value refresh_token_cookie reply.cookies
      → ((now' : Time)
          → now' < now + access_ttl
          → now' < now + b.keys.refresh_ttl_ms
          → me b now' next w' ≡ (ok reply.body, w'))
        × ((now' : Time) (any : State b)
            → now + access_ttl ≤ now'
            → me b now' next any ≡ (err (unauthorized (codes "Unauthorized")), any))
        × ((later now' : Time)
            → later < now + b.keys.refresh_ttl_ms
            → now' < now + access_ttl
            → let out = (sign_out b later next w').1 in
              me b now' next out ≡ (err (unauthorized (codes "Session is no longer active")), out))
  unfolding to_public_profile
  sign_in-me now access_ttl id family_id request next dto w w' reply hid lives vr filled e ea er =
      let h = sign_in-Entered now id family_id request dto w w' reply e in
      let payload : TokenPayload = record {
        sub = h.user.id;
        email = h.user.cols.email;
        session_id = id;
      } in
      let same = Entered-payload now id family_id request dto w w' reply h in
      let refresh : b.verifiers.verify h.tokens.refresh_token ≡ some payload =
        rw same (vr payload) in
      (
        (λ now' fresh before.
            let access : b.verify_access now' h.tokens.access_token ≡ some payload =
              rw same (lives.fresh payload now' fresh) in
            let active =
              (start_lem b.sessions b.session_transactions b.keys now now' id family_id
                (to_public_profile h.user) (request_session_metadata request) w.sessions w'.sessions
                h.tokens hid h.started before).0 in
            let found : find_by_id b.tables h.user.id w'.db ≡ some h.user = rw h.same_db (
              found_by_id b.tables b.sessions b.session_transactions b.keys b.unicode b.verifiers
                dto.email h.user w.db h.known) in
            me_ok now' next w' h.tokens.access_token payload h.user (ea ∙ h.access) access active
              found
            ∙ ap (λ (x : UserPublicProfile). (ok x, w')) (sym h.body)),
        (λ now' any over.
            me_expired now' next any h.tokens.access_token (ea ∙ h.access)
              (rw same (lives.expired payload now' over))),
        λ later now' in_time fresh.
            let access : b.verify_access now' h.tokens.access_token ≡ some payload =
              rw same (lives.fresh payload now' fresh) in
            let given : h.tokens.refresh_token ≢ [] =
              λ z. filled payload (sym (ap (λ (x : TokenPair). x.refresh_token) same) ∙ z) in
            me_inactive now' next (sign_out b later next w').1 h.tokens.access_token payload
              (ea ∙ h.access) access
              (sign_out-revoked later now' next w' h.tokens.refresh_token payload (er ∙ h.refresh)
                given refresh),
      )
