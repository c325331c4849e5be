-- ===== src/Http/Sessions.antt =====
-- modules/auth/interfaces/sessions.controller.ts. A handler gives the cookies that it sets on the
-- response, or the exception that the filters answer.
use gym_saas_be.Prelude.{
  ◌&&◌, ℕ, ◌≡◌, refl, ◌≢◌, ◌↔◌, Bool, true, false, some, List, [], codes, ◌==◌, arith, All,
  if◌then◌else◌,
}
use gym_saas_be.Store.{Uuid, Time}
use gym_saas_be.Errors.{Result, not_found, ok, err}
use gym_saas_be.Entities.{Session, Action, pure, throw}
use gym_saas_be.Sessions.{SessionTable}
use gym_saas_be.Sessions.Repository.{revoke_owned, revoke_all_except, is_active}
use gym_saas_be.Sessions.Revocation.{HasOpen, revoke_owned_lem}
use gym_saas_be.Sessions.Service.{TokenPair}
use gym_saas_be.Http.Cookies.{
  CookieConfig, SetCookie, Clears, set_session_cookies, clear_session_cookies,
  clear_session_cookies-Clears,
}

module _ (t : SessionTable) (config : CookieConfig) where
  -- The answer to a revocation: the cookies go when the session was the request's own, by the
  -- spelling of its id, which `ParseUUIDPipe` lets through as it is, while that of the request's
  -- session is the database's.
  unfoldable pub finish_revoke :
      (current_id session_id : Uuid) → (is_canonical done : Bool) → Action t.Store (List SetCookie)
  unfolding clear_session_cookies
  finish_revoke current_id session_id is_canonical false =
      throw (not_found (codes "Session not found"))
  finish_revoke current_id session_id is_canonical true =
      pure (if is_canonical && session_id == current_id then clear_session_cookies config else [])

  unfoldable pub revoke :
      Time
      → (user_id current_id session_id : Uuid) → (is_canonical : Bool)
      → Action t.Store (List SetCookie)
  unfolding revoke_owned finish_revoke
  revoke now user_id current_id session_id is_canonical s =
      let (done, s') = revoke_owned t user_id session_id now s in
      finish_revoke current_id session_id is_canonical done s'

  -- `revokeOthers`, with the count of its body.
  unfoldable pub revoke_others : Time → (user_id current_id : Uuid) → Action t.Store ℕ
  unfolding revoke_all_except
  revoke_others now user_id current_id s =
      let (count, s') = revoke_all_except t user_id current_id now s in (ok count, s')

  -- The answer to a revocation: with no body if the session was the user's and open, the session
  -- cookies taken back exactly if it is the request's own in the database's spelling, and 404 else.
  pub IsAnswered :
      (user_id current_id session_id : Uuid)
      → (is_canonical : Bool) → t.Store
      → Result (List SetCookie)
      → Type 0
  IsAnswered user_id current_id session_id is_canonical s (ok cookies) =
      HasOpen t s user_id session_id
      × (session_id ≢ current_id → cookies ≡ [])
      × (is_canonical ≡ false → cookies ≡ [])
      × (session_id ≡ current_id
          → is_canonical ≡ true
          → (tokens : TokenPair) → All (Clears cookies) (set_session_cookies config tokens))
  IsAnswered user_id current_id session_id is_canonical s (err x) =
      (¬ HasOpen t s user_id session_id) × (x ≡ not_found (codes "Session not found"))

  finish_revoke_state :
      (current_id session_id : Uuid) (is_canonical done : Bool) (s : t.Store)
      → (finish_revoke current_id session_id is_canonical done s).1 ≡ s
  unfolding finish_revoke
  finish_revoke_state current_id session_id is_canonical true s = refl
  finish_revoke_state current_id session_id is_canonical false s = refl

  finish_revoke_lem :
      (user_id current_id session_id : Uuid) (s s' : t.Store) (is_canonical done : Bool)
      → ((done ≡ true) ↔ HasOpen t s user_id session_id)
      → IsAnswered user_id current_id session_id is_canonical s
          (finish_revoke current_id session_id is_canonical done s').0
  unfolding finish_revoke IsAnswered
  finish_revoke_lem user_id current_id session_id s s' is_canonical false h =
      ((λ o. let e : false ≡ true = h.1 o in cc), refl)
  finish_revoke_lem user_id current_id session_id s s' is_canonical true h = (
    h.0 refl,
    (λ n. ground arith),
    (λ q. ground arith),
    λ e q tokens. ground (arith, clear_session_cookies-Clears config tokens),
  )

  -- The handler that revokes a session succeeds exactly if the user has that session open, and
  -- fails with `Session not found` else. When it succeeds, it touches no cookie if the session is
  -- another one than the request's or its id is not spelled as the database does, and takes back
  -- every cookie that a sign-in had set, by its name and options, if it is the same, so spelled. In every case the session is not active for this user afterwards,
  -- and its row is as it was if it is another user's.
  pub revoke_lem :
      (now now' : Time) (user_id current_id session_id : Uuid) (is_canonical : Bool) (s : t.Store)
      → let (r, s') = revoke now user_id current_id session_id is_canonical s in
        IsAnswered user_id current_id session_id is_canonical s r
        × (is_active t user_id session_id now' s' ≡ false)
        × ((a : Session)
            → t.row s session_id ≡ some a
            → a.cols.user_id ≢ user_id
            → t.row s' session_id ≡ some a)
  unfolding revoke revoke_owned
  revoke_lem now now' user_id current_id session_id is_canonical s =
      let (done, s') = revoke_owned t user_id session_id now s in
      let (opened, inactive, kept, rest) = revoke_owned_lem t user_id session_id now now' s in
      (
        finish_revoke_lem user_id current_id session_id s s' is_canonical done opened,
        rw (finish_revoke_state current_id session_id is_canonical done s', inactive) refl,
        rw (finish_revoke_state current_id session_id is_canonical done s') kept,
      )
