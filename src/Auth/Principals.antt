-- ===== src/Auth/Principals.antt =====
-- Which requests act for a user, and in which organization.
use gym_saas_be.Prelude.{
  ◌≡◌, ◌≢◌, ◌↔◌, inl, inr, true, Option, none, some, [], ◌∷◌, Text, arith, Option-cases, Bool-cases,
  Unicode, subst,
}
use gym_saas_be.Store.{Uuid, Time}
use gym_saas_be.Store.Queries.{find_one-id, count-Seen}
use gym_saas_be.Errors.{ok}
use gym_saas_be.Entities.{User, Membership, Tables, Db, Transactions}
use gym_saas_be.Users.{to_public_profile}
use gym_saas_be.Users.Repository.{find_by_id, is_user}
use gym_saas_be.Memberships.{is_active_member}
use gym_saas_be.Permissions.{is_membership_of}
use gym_saas_be.Permissions.Guard.{active_org_guard}
use gym_saas_be.Sessions.{SessionTable}
use gym_saas_be.Sessions.Repository.{is_active}
use gym_saas_be.Sessions.Service.{Keys, TokenPayload}
use gym_saas_be.Sessions.Revocation.{IsActive, is_active_iff}
use gym_saas_be.Auth.{World, Verifiers, AuthenticatedPrincipal, validate_claims}
use gym_saas_be.Auth.Context.{use_context, context_of, active_of}

module _ (t : Tables) (st : SessionTable) (d : Transactions st.Store) (k : Keys) (u : Unicode)
    (v : Verifiers) where
  -- The claims name an active session of a live user, and the principal is that user.
  pub record IsPrincipal (now : Time) (payload : TokenPayload) (w : World t st)
      (p : AuthenticatedPrincipal) : Type 0 where
    pub active : IsActive st w.sessions payload.sub payload.session_id now
    pub user : User
    pub user_row : t.users.row w.db.users payload.sub ≡ some user
    pub user_live : user.deleted_at ≡ none
    pub principal : p ≡ record { user = to_public_profile user; session_id = payload.session_id }

  user_found :
      (id : Uuid) (user : User) (db : Db t)
      → t.users.row db.users id ≡ some user
      → user.deleted_at ≡ none
      → find_by_id t id db ≡ some user
  unfolding find_by_id is_user
  user_found id user db row live =
      let at_id = t.users.row_id db.users id user row in
      find_one-id t.users (is_user id) db.users id user row (live, ground (arith, at_id))
        (λ a e. ground arith)

  found_user :
      (id : Uuid) (user : User) (db : Db t)
      → find_by_id t id db ≡ some user
      → (t.users.row db.users id ≡ some user) × (user.deleted_at ≡ none)
  unfolding find_by_id is_user
  found_user id user db e =
      let (row, vis) = t.users.find_one_some (is_user id) db.users user e in
      let at_id : user.id ≡ id = ground (arith, vis.1) in
      (subst (λ (j : Uuid). t.users.row db.users j ≡ some user) at_id row, vis.0)

  -- An access token is accepted exactly while its session is active and its user is live, and then
  -- acts for that user.
  pub validate_claims_iff :
      (now : Time) (payload : TokenPayload) (w : World t st) (p : AuthenticatedPrincipal)
      → (validate_claims t st d k u v now payload w ≡ ok p) ↔ IsPrincipal now payload w p
  unfolding validate_claims
  validate_claims_iff now payload w p = (
    (λ e. elim (Bool-cases (is_active st payload.sub payload.session_id now w.sessions)) [
      | inr n ↦ absurd (ground arith)
      | inl a ↦ elim (Option-cases (find_by_id t payload.sub w.db)) [
        | inl n ↦ absurd (ground arith)
        | inr (user, q) ↦
            let (row, live) = found_user payload.sub user w.db q in
            record {
              active = (is_active_iff st w.sessions payload.sub payload.session_id now).0 a;
              user = user;
              user_row = row;
              user_live = live;
              principal = ground arith;
            }
      ]
    ]),
    λ h. ground (
      arith,
      (is_active_iff st w.sessions payload.sub payload.session_id now).1 h.active,
      user_found payload.sub h.user w.db h.user_row h.user_live,
      h.principal,
    ),
  )

module _ (t : Tables) where
  -- A live membership of the account in the organization.
  abbrev pub IsMember : Db t → Uuid → Uuid → Type 0
  IsMember db user_id organization_id =
      (m : Membership) × (t.memberships.row db.memberships m.id ≡ some m)
      × (m.deleted_at ≡ none)
      × (m.cols.user_id ≡ user_id)
      × (m.cols.organization_id ≡ organization_id)

  is_active_member-IsMember :
      (user_id organization_id : Uuid) (db : Db t)
      → is_active_member t user_id organization_id db ≡ true
      → IsMember db user_id organization_id
  unfolding is_active_member is_membership_of
  is_active_member-IsMember i o db e =
      let (m, row, vis) =
        count-Seen t.memberships (is_membership_of i o) db.memberships (ground arith) in
      (m, row, vis.0, ground (arith, vis.1), ground (arith, vis.1))

  active_of-IsMember :
      (account_id : Uuid) (cookie : Option Uuid) (o : Uuid) (db : Db t)
      → active_of t account_id cookie db ≡ some o
      → IsMember db account_id o × (o ≢ 0)
  unfolding active_of
  active_of-IsMember i none o db e = cc
  active_of-IsMember i (some c) o db e = elim (Bool-cases (is_active_member t i c db)) [
    | inr n ↦ absurd (ground arith)
    | inl a ↦
        let same : (c ≡ o) × (o ≢ 0) = ground arith in
        (
          is_active_member-IsMember i o db
              (subst (λ (x : Uuid). is_active_member t i x db ≡ true) (same.0) a),
          same.1,
        )
  ]

  -- A request that the guard of business routes lets through acts for an account in an organization
  -- of which the account is a live member; if the path names an organization, it is that one.
  pub active_org_guard-IsMember :
      (verify : Text → Option TokenPayload) (request_id : Text) (token : Option Text)
      (cookie path_id : Option Uuid) (db : Db t)
      → active_org_guard
          (use_context t verify request_id token cookie db).active_organization_id
          path_id
        ≡ ok tt
      → (account organization : Uuid) × ((use_context t verify request_id token cookie
            db).account_id
          ≡ some account)
        × ((use_context t verify request_id token cookie db).active_organization_id
            ≡ some organization)
        × IsMember db account organization
        × ((i : Uuid) → path_id ≡ some i → i ≢ 0 → i ≡ organization)
  unfolding use_context context_of active_org_guard
  active_org_guard-IsMember verify request_id none cookie path_id db e = cc
  active_org_guard-IsMember verify request_id (some []) cookie path_id db e = cc
  active_org_guard-IsMember verify request_id (some (c ∷ s)) cookie path_id db e =
      elim (Option-cases (verify (c ∷ s))) [
        | inl n ↦ absurd (ground arith)
        | inr (payload, q) ↦ elim (Option-cases (active_of t payload.sub cookie db)) [
          | inl n ↦ absurd (ground arith)
          | inr (o, a) ↦
              let (m, n) = active_of-IsMember payload.sub cookie o db a in
              (
                payload.sub,
                o,
                ground arith,
                ground arith,
                m,
                λ i p z. ground (arith, e, q, a, p, z),
              )
        ]
      ]
