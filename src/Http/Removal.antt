-- ===== src/Http/Removal.antt =====
-- A request to remove a member, from its cookies to the database.
use gym_saas_be.Prelude.{◌≡◌, refl, ◌≢◌, ◌⊎◌, inl, inr, false, some, arith, subst, sym}
use gym_saas_be.Store.{Uuid, Time}
use gym_saas_be.Errors.{Result, ok, err, returned}
use gym_saas_be.Permissions.{members_remove}
use gym_saas_be.Memberships.{RemoveMemberCommand, is_active_member}
use gym_saas_be.Memberships.UseCases.{remove_member}
use gym_saas_be.Memberships.Removal.{remove_member_lem}
use gym_saas_be.Auth.{AuthenticatedPrincipal}
use gym_saas_be.Http.Requests.{Backend, HttpRequest, State, require_permissions, business_guards}
use gym_saas_be.Http.Members.{remove}
use gym_saas_be.Http.Acting.{IsActing, business_guards_iff}

module _ (b : Backend) where
  -- The end of a request to remove a member.
  abbrev pub AfterRemove :
      Time
      → HttpRequest
      → (organization_id target_user_id : Uuid) → State b
      → Result (Unit {0}) × State b
      → Type 0
  AfterRemove now request organization_id target_user_id w o =
      ((o.0 ≡ ok tt)
        × ((p : AuthenticatedPrincipal) × IsActing b now request organization_id members_remove w p)
        × (is_active_member b.tables target_user_id organization_id o.1.db ≡ false)
        × (o.1.sessions ≡ w.sessions))
      ⊎ ((o.0 ≢ ok tt) × (o.1 ≡ w))

  -- A request to remove a member succeeds only if it acts for a live user with an active session,
  -- in the organization that its cookie and its path name, where a live role of that user is
  -- granted the permission to remove members; then the target is no active member any more and the
  -- sessions are as they were. A request that fails changes nothing.
  pub remove_lem :
      (now : Time) (request : HttpRequest) (organization_id target_user_id : Uuid) (w : State b)
      → organization_id ≢ 0
      → AfterRemove now request organization_id target_user_id w
          (remove b now request organization_id target_user_id w)
  unfolding remove
  remove_lem now request o target w n =
      let guards =
        business_guards b (some (require_permissions members_remove)) now request (some o) w in
      elim (returned guards) [
        | inr (x, e) ↦
            let after : remove b now request o target w ≡ (err x, w) = ground arith in
            subst (AfterRemove now request o target w) (sym after) (inr (ground arith, refl))
        | inl (p, e) ↦
            let c : RemoveMemberCommand = record {
              caller_user_id = p.user.id;
              organization_id = o;
              target_user_id = target;
            } in
            let (r, db') = remove_member b.tables c now w.db in
            let after : remove b now request o target w ≡ (r, record w { db = db' }) =
              ground arith in
            subst (AfterRemove now request o target w) (sym after)
              (elim (remove_member_lem b.tables c now w.db) [
                | inl (done, permitted, gone, target_row, found, rest) ↦ inl (
                  done,
                  (p, (business_guards_iff b now request o members_remove w p n).0 e),
                  gone,
                  refl,
                )
                | inr (failed, same) ↦ inr (failed, ground arith)
              ])
      ]
