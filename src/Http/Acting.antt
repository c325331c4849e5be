-- ===== src/Http/Acting.antt =====
-- What the guards of the routes of an organization come to, and what a request to remove a member
-- does from its cookies to the database.
use gym_saas_be.Prelude.{
  ℕ, ◌≡◌, refl, ◌≢◌, ◌↔◌, inl, inr, true, Option, none, some, [], ◌∷◌, Text, arith, Bool-cases,
  subst, sym, ◌∙◌,
}
use gym_saas_be.Store.{Uuid, Time}
use gym_saas_be.Store.Queries.{count-pos}
use gym_saas_be.Errors.{ok}
use gym_saas_be.Entities.{Role, Db}
use gym_saas_be.Users.{to_public_profile}
use gym_saas_be.Memberships.{is_active_member}
use gym_saas_be.Permissions.{is_membership_of}
use gym_saas_be.Permissions.Asked.{by_reader, by_path, by_active}
use gym_saas_be.Permissions.Guard.{active_org_guard}
use gym_saas_be.Permissions.Granted.{IsPermitted, HasRole}
use gym_saas_be.Permissions.Guarded.{IsAdmitted, can_activate_iff}
use gym_saas_be.Sessions.Service.{TokenPayload}
use gym_saas_be.Auth.{AuthenticatedPrincipal}
use gym_saas_be.Auth.Context.{use_context, context_of, active_of}
use gym_saas_be.Http.Requests.{
  Backend, HttpRequest, State, require_permissions, context, business_guards, seen,
}
use gym_saas_be.Http.Access.{Principal, IsSignedIn, jwt_auth_guard_iff, in_a_row}

module _ (b : Backend) where
  -- The organization of the request's cookie, if the account is a member of it.
  active_of_iff :
      (account_id : Uuid) (cookie : Option Uuid) (o : Uuid) (db : Db b.tables)
      → (active_of b.tables account_id cookie db ≡ some o)
        ↔ ((cookie ≡ some o) × (o ≢ 0) × (is_active_member b.tables account_id o db ≡ true))
  unfolding active_of
  active_of_iff account_id none o db = ground arith
  active_of_iff account_id (some c) o db = (
    (λ e. elim (Bool-cases (is_active_member b.tables account_id c db)) [
      | inr n ↦ absurd (ground arith)
      | inl a ↦
          let same : (c ≡ o) × (o ≢ 0) = ground arith in (rw same.0 refl, same.1, rw (← same.0) a)
    ]),
    λ (e, n, a).
        let same : c ≡ o = ground arith in
        ground (
          arith,
          subst (λ (x : Uuid). is_active_member b.tables account_id x db ≡ true) (sym same) a,
        ),
  )

  context-active :
      (now : Time) (request : HttpRequest) (w : State b) (c : ℕ) (s : Text) (payload : TokenPayload)
      → request.access_token ≡ some (c ∷ s)
      → b.verify_access now (c ∷ s) ≡ some payload
      → (context b now request w).active_organization_id
        ≡ active_of b.tables payload.sub request.active_org w.db
  unfolding context use_context context_of
  context-active now request w c s payload e q = ground arith

  HasRole-is_active_member :
      (db : Db b.tables) (u o : Uuid) (role : Role)
      → HasRole b.tables db u o role
      → is_active_member b.tables u o db ≡ true
  unfolding is_active_member is_membership_of
  HasRole-is_active_member db u o role h = ground (
    arith,
    count-pos b.tables.memberships (is_membership_of u o) db.memberships h.member.id h.member
        h.member_row (h.member_live, ground (arith, h.of_user, h.of_organization)),
  )

  -- A request acts for a live user with an active session, in the organization of its cookie, in
  -- which a live role of the user is granted the permission.
  pub record IsActing (now : Time) (request : HttpRequest) (organization_id : Uuid) (code : Text)
      (w : State b) (p : AuthenticatedPrincipal) : Type 0 where
    pub signed_in : IsSignedIn b now request w p
    pub filled : signed_in.token ≢ []
    pub chosen : request.active_org ≡ some organization_id
    pub permitted : IsPermitted b.tables w.db p.user.id organization_id (code ∷ [])

  Principal-id :
      (now : Time) (payload : TokenPayload) (w : State b) (p : AuthenticatedPrincipal)
      → Principal b now payload w p
      → (p.user.id ≡ payload.sub) × (payload.sub ≢ 0)
  unfolding to_public_profile
  Principal-id now payload w p h = (
    ground (arith, h.principal, b.tables.users.row_id w.db.users payload.sub h.user h.user_row),
    λ z. ground (arith, b.tables.users.row_zero w.db.users, h.user_row, z),
  )

  IsAdmitted-IsPermitted :
      (code : Text) (request : HttpRequest) (organization_id : Uuid) (active : Option Uuid)
      (w : State b) (p : AuthenticatedPrincipal)
      → IsAdmitted b.tables
          (require_permissions code)
          b.registry
          (seen b request (some organization_id) p)
          active
          w.db
      → IsPermitted b.tables w.db p.user.id organization_id (code ∷ [])
  unfolding require_permissions
  IsAdmitted-IsPermitted code request o active w p h =
      let same_user : h.user_id ≡ p.user.id = ground (arith, h.is_user) in
      let same : h.organization_id ≡ o = elim h.is_organization [
        | by_reader read e g ↦ cc
        | by_path n e ↦ ground arith
        | by_active n e a ↦ cc
      ] in
      rw (← same_user, ← same) h.permitted

  IsPermitted-IsAdmitted :
      (code : Text) (request : HttpRequest) (organization_id : Uuid) (active : Option Uuid)
      (w : State b) (p : AuthenticatedPrincipal)
      → p.user.id ≢ 0
      → organization_id ≢ 0
      → IsPermitted b.tables w.db p.user.id organization_id (code ∷ [])
      → IsAdmitted b.tables
          (require_permissions code)
          b.registry
          (seen b request (some organization_id) p)
          active
          w.db
  unfolding require_permissions
  IsPermitted-IsAdmitted code request o active w p u n h = record {
    user_id = p.user.id;
    organization_id = o;
    is_user = refl;
    user_filled = u;
    is_organization = by_path (λ read e. cc) refl;
    organization_filled = n;
    permitted = h;
    owns = λ resource read asks. absurd (ground (arith, asks.resource_named));
  }

  guard-chosen :
      (active : Option Uuid) (o : Uuid)
      → o ≢ 0
      → active_org_guard active (some o) ≡ ok tt
      → active ≡ some o
  unfolding active_org_guard
  guard-chosen none o n e = cc
  guard-chosen (some a) o n e = ground arith

  chosen-guard : (o : Uuid) → o ≢ 0 → active_org_guard (some o) (some o) ≡ ok tt
  unfolding active_org_guard
  chosen-guard o n = ground arith

  acting :
      (now : Time) (request : HttpRequest) (o : Uuid) (code : Text) (w : State b)
      (p : AuthenticatedPrincipal) (h : IsSignedIn b now request w p) (token : Text)
      → h.token ≡ token
      → o ≢ 0
      → (context b now request w).active_organization_id ≡ some o
      → IsPermitted b.tables w.db p.user.id o (code ∷ [])
      → IsActing now request o code w p
  unfolding context use_context
  acting now request o code w p h [] e n active permitted = absurd (ground (arith, h.cookie, e))
  acting now request o code w p h (c ∷ s) e n active permitted =
      let cookie : request.access_token ≡ some (c ∷ s) = ground (arith, h.cookie, e) in
      let signed : b.verify_access now (c ∷ s) ≡ some h.payload = rw (← e) h.signed in
      record {
        signed_in = h;
        filled = λ z. ground (arith, e, z);
        chosen =
            ((active_of_iff h.payload.sub request.active_org o w.db).0
              (sym (context-active now request w c s h.payload cookie signed) ∙ active)).0;
        permitted = permitted;
      }

  acting-active :
      (now : Time) (request : HttpRequest) (o : Uuid) (code : Text) (w : State b)
      (p : AuthenticatedPrincipal) (h : IsActing now request o code w p) (token : Text)
      → h.signed_in.token ≡ token
      → o ≢ 0
      → (context b now request w).active_organization_id ≡ some o
  acting-active now request o code w p h [] e n = absurd (h.filled e)
  acting-active now request o code w p h (c ∷ s) e n =
      let g = h.signed_in in
      let cookie : request.access_token ≡ some (c ∷ s) = ground (arith, g.cookie, e) in
      let signed : b.verify_access now (c ∷ s) ≡ some g.payload = rw (← e) g.signed in
      let (role, has, code, mem, grants) = h.permitted in
      let same = (Principal-id now g.payload w p g.principal).0 in
      context-active now request w c s g.payload cookie signed
      ∙ (active_of_iff g.payload.sub request.active_org o w.db).1
          (h.chosen, n, rw (← same) (HasRole-is_active_member w.db p.user.id o role has))

  pub business_guards_iff :
      (now : Time) (request : HttpRequest) (organization_id : Uuid) (code : Text) (w : State b)
      (p : AuthenticatedPrincipal)
      → organization_id ≢ 0
      → (business_guards b (some (require_permissions code)) now request (some organization_id) w
          ≡ ok p)
        ↔ IsActing now request organization_id code w p
  business_guards_iff now request o code w p n =
      let row = in_a_row b (some (require_permissions code)) now request (some o) w p in
      (
        (λ e.
            let (signed, active, allowed) = row.0 e in
            let h = (jwt_auth_guard_iff b now request w p).0 signed in
            acting now request o code w p h h.token refl n (guard-chosen _ o n active) (
              IsAdmitted-IsPermitted code request o _ w p (
                (can_activate_iff b.tables (require_permissions code) b.registry _ _ w.db).0
                  allowed))),
        λ h.
            let active = acting-active now request o code w p h h.signed_in.token refl n in
            let (same, user) = Principal-id now h.signed_in.payload w p h.signed_in.principal in
            row.1 (
              (jwt_auth_guard_iff b now request w p).1 h.signed_in,
              rw active (chosen-guard o n),
              (can_activate_iff b.tables (require_permissions code) b.registry _ _ w.db).1
                  (IsPermitted-IsAdmitted code request o _ w p (rw same user) n h.permitted),
            ),
      )
