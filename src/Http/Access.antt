-- ===== src/Http/Access.antt =====
-- Who gets past the guards of the routes of an organization: the middleware that fills the context,
-- the verification of the access token and both guards together.
use gym_saas_be.Prelude.{◌≡◌, refl, ◌↔◌, inl, inr, Option, some, Text, arith, Option-cases}
use gym_saas_be.Store.{Uuid, Time}
use gym_saas_be.Errors.{Result, ok, err}
use gym_saas_be.Permissions.Guard.{active_org_guard, can_activate, RequirePermissionsOptions}
use gym_saas_be.Sessions.Service.{TokenPayload}
use gym_saas_be.Auth.{AuthenticatedPrincipal}
use gym_saas_be.Auth.Principals.{IsPrincipal, validate_claims_iff}
use gym_saas_be.Http.Requests.{
  Backend, HttpRequest, State, jwt_auth_guard, authenticate, cookie_extractor, context,
  business_guards, and_then, keep, seen,
}

module _ (b : Backend) where
  abbrev pub Principal : Time → TokenPayload → State b → AuthenticatedPrincipal → Type 0
  Principal = IsPrincipal b.tables b.sessions b.session_transactions b.keys b.unicode b.verifiers

  -- The access token of a request is signed, and names an active session of a live user.
  pub record IsSignedIn (now : Time) (request : HttpRequest) (w : State b)
      (p : AuthenticatedPrincipal) : Type 0 where
    pub token : Text
    pub cookie : request.access_token ≡ some token
    pub payload : TokenPayload
    pub signed : b.verify_access now token ≡ some payload
    pub principal : Principal now payload w p

  pub jwt_auth_guard_iff :
      (now : Time) (request : HttpRequest) (w : State b) (p : AuthenticatedPrincipal)
      → (jwt_auth_guard b now request w ≡ ok p) ↔ IsSignedIn now request w p
  unfolding jwt_auth_guard authenticate cookie_extractor
  jwt_auth_guard_iff now request w p = (
    (λ e. elim (Option-cases request.access_token) [
      | inl n ↦ absurd (ground arith)
      | inr (token, q) ↦ elim (Option-cases (b.verify_access now token)) [
        | inl n ↦ absurd (ground arith)
        | inr (payload, s) ↦ record {
          token = token;
          cookie = q;
          payload = payload;
          signed = s;
          principal =
              (validate_claims_iff b.tables b.sessions b.session_transactions b.keys b.unicode
                  b.verifiers now payload w p).0
                (ground arith);
        }
      ]
    ]),
    λ h. ground (
      arith,
      h.cookie,
      h.signed,
      (validate_claims_iff b.tables b.sessions b.session_transactions b.keys b.unicode b.verifiers
            now h.payload w p).1
          h.principal,
    ),
  )

  and_then_ok :
      {A B : Type 0} (a : Result A) (f : A → Result B) (y : B)
      → and_then a f ≡ ok y
      → (x : A) × (a ≡ ok x) × (f x ≡ ok y)
  and_then_ok (ok x) f y e = (x, refl, e)
  and_then_ok (err x) f y e = cc

  keep_ok :
      (p q : AuthenticatedPrincipal) (r : Result (Unit {0}))
      → keep p r ≡ ok q
      → (p ≡ q) × (r ≡ ok tt)
  keep_ok p q (ok u) e = (ground arith, refl)
  keep_ok p q (err x) e = cc

  -- What the guards ask, one after the other.
  pub in_a_row :
      (options : Option RequirePermissionsOptions) (now : Time) (request : HttpRequest)
      (path_id : Option Uuid) (w : State b) (p : AuthenticatedPrincipal)
      → (business_guards b options now request path_id w ≡ ok p) ↔ (
          (jwt_auth_guard b now request w ≡ ok p)
          × (active_org_guard (context b now request w).active_organization_id path_id ≡ ok tt)
          × (can_activate b.tables options b.registry
                (seen b request path_id p)
                (context b now request w).active_organization_id
                w.db
              ≡ ok tt))
  unfolding business_guards
  in_a_row options now request path_id w p = (
    (λ e.
        let (q, signed, e') = and_then_ok (jwt_auth_guard b now request w) _ p e in
        let (u, active, e'') =
          and_then_ok (active_org_guard (context b now request w).active_organization_id path_id) _
            p e' in
        let (same, permitted) = keep_ok q p _ e'' in rw (← same) (signed, active, permitted)),
    λ (signed, active, permitted). rw (signed, active, permitted) refl,
  )
