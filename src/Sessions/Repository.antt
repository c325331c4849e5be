-- ===== src/Sessions/Repository.antt =====
-- modules/sessions/infrastructure/typeorm-session.repository.ts. `now` is what the clock shows
-- during the call, and a query that fails is not modelled but for `save`.
use gym_saas_be.Prelude.{ℕ, Bool, none, some, List, Text, ltb, if◌then◌else◌, is_some, with_default}
use gym_saas_be.Store.{Uuid, Time}
use gym_saas_be.Errors.{ok}
use gym_saas_be.Entities.{Transactions, Session, Action, pure, saving, ◌>>◌}
use gym_saas_be.Sessions.{
  SessionTable, SessionRotationResult, rotated, invalid, reused, has_id, is_active_session,
  is_active_of_user, is_open_in_family, is_open_owned, is_open_other, revoke_at, is_refused,
  consume, adopt,
}

module _ (t : SessionTable) where
  unfoldable pub save : Session → Action t.Store Session
  save session = saving t.table (λ s. s) (λ s _. s) session

  unfoldable pub is_active : Uuid → Uuid → Time → t.Store → Bool
  is_active user_id session_id now s = ltb 0 (t.count (is_active_session user_id session_id now) s)

  -- The order is that of the database; the source asks for the newest first.
  unfoldable pub find_active_by_user : Uuid → Time → t.Store → List Session
  find_active_by_user user_id now s = t.find (is_active_of_user user_id now) s

  -- A live token: the session is closed and its replacement stored in the same family.
  unfoldable pub replace : Session → Uuid → Session → Time → Action t.Store SessionRotationResult
  unfolding save
  replace current user_id replacement now = do
    save (consume user_id replacement now current)
    save (adopt current replacement)
    pure rotated

  -- A session that is already revoked: its whole family is.
  unfoldable pub revoke_family : Session → Uuid → Time → Action t.Store SessionRotationResult
  revoke_family current user_id now s =
      (ok reused, t.update (is_open_in_family current.cols.family_id) (revoke_at now) user_id s)

  unfoldable pub rotate_found :
      Session → Uuid → Text → Session → Time → Action t.Store SessionRotationResult
  unfolding replace revoke_family
  rotate_found current user_id hash replacement now =
      if is_refused user_id hash now current
      then pure invalid
      else if is_some current.cols.revoked_at
      then revoke_family current user_id now
      else replace current user_id replacement now

  unfoldable pub rotate_body :
      Uuid → Uuid → Text → Session → Time → Action t.Store SessionRotationResult
  unfolding rotate_found
  rotate_body current_id user_id hash replacement now s = elim (t.find_any (has_id current_id) s) [
    | none ↦ (ok invalid, s)
    | some current ↦ rotate_found current user_id hash replacement now s
  ]

  unfoldable pub rotate :
      Transactions t.Store
      → Uuid
      → Uuid
      → Text
      → Session
      → Time
      → Action t.Store SessionRotationResult
  unfolding rotate_body
  rotate d current_id user_id hash replacement now =
      d.transaction SessionRotationResult (rotate_body current_id user_id hash replacement now)

  unfoldable pub revoke_owned : Uuid → Uuid → Time → t.Store → Bool × t.Store
  revoke_owned user_id session_id now s =
      let open_owned = is_open_owned user_id session_id in
      (
        ltb 0 (with_default 0 (t.affected open_owned s)),
        t.update open_owned (revoke_at now) user_id s,
      )

  unfoldable pub revoke_all_except : Uuid → Uuid → Time → t.Store → ℕ × t.Store
  revoke_all_except user_id excluded_id now s =
      let open_other = is_open_other user_id excluded_id in
      (with_default 0 (t.affected open_other s), t.update open_other (revoke_at now) user_id s)
