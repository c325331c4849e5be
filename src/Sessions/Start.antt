-- ===== src/Sessions/Start.antt =====
-- What starting a session gives: an active session whose refresh token can be exchanged.
use gym_saas_be.Prelude.{
  ◌+◌, ◌≡◌, refl, ◌≢◌, inl, inr, true, none, some, arith, ◌<◌, Option-cases, ◌∙◌,
}
use gym_saas_be.Store.{Uuid, Time}
use gym_saas_be.Errors.{ok}
use gym_saas_be.Entities.{Transactions, Session}
use gym_saas_be.Users.{UserPublicProfile}
use gym_saas_be.Sessions.{SessionTable}
use gym_saas_be.Sessions.Repository.{is_active}
use gym_saas_be.Sessions.Service.{Keys, SessionMetadata, TokenPair, start, build_session, with_hash}
use gym_saas_be.Sessions.Exchange.{IsPresented}
use gym_saas_be.Sessions.Revocation.{IsActive, is_active_iff}

module _ (t : SessionTable) (d : Transactions t.Store) (k : Keys) where
  saved_IsPresented :
      (now' : Time) (session r : Session) (s s1 : t.Store)
      → session.id ≢ 0
      → session.cols.revoked_at ≡ none
      → session.deleted_at ≡ none
      → now' < session.cols.expires_at
      → t.save session s ≡ some (r, s1)
      → IsPresented t s1 session.id session.cols.user_id session.cols.refresh_token_hash now' r
        × IsActive t s1 session.cols.user_id session.id now'
        × (r.cols.revoked_at ≡ none)
  saved_IsPresented now' session r s s1 hid is_open live h q =
      let cols = t.save_cols session r s s1 q in
      let at_id = t.save_id session r s s1 q hid in
      let found : t.row s1 session.id ≡ some r =
        ground (arith, t.save_row session r s s1 session.id q, at_id) in
      let unexpired : now' < r.cols.expires_at = rw cols h in
      (
        record { found = found; owned = rw cols; same_hash = rw cols; unexpired = unexpired },
        record {
          session = r;
          found = found;
          live = t.save_deleted_at session r s s1 q ∙ live;
          owned = rw cols;
          is_open = rw cols is_open;
          unexpired = unexpired;
        },
        rw cols is_open,
      )

  -- A session that was started is active until its lifetime is over, and until then presenting the
  -- refresh token that was handed out meets every condition under which a token is exchanged.
  pub start_lem :
      (now now' : Time) (id family_id : Uuid) (user : UserPublicProfile)
      (metadata : SessionMetadata) (s s' : t.Store) (tokens : TokenPair)
      → id ≢ 0
      → start t d k now id family_id user metadata s ≡ (ok tokens, s')
      → now' < now + k.refresh_ttl_ms
      → (is_active t user.id id now' s' ≡ true)
        × (c : Session) × IsPresented t s' id user.id (k.digest tokens.refresh_token) now' c
        × (c.cols.revoked_at ≡ none)
  unfolding start build_session
  start_lem now now' id family_id user metadata s s' tokens hid e h =
      let session = build_session k now id user.id family_id metadata in
      let issued = k.issue_tokens (record { sub = user.id; email = user.email; session_id = id }) in
      let hashed = with_hash (k.digest issued.refresh_token) session in
      elim (Option-cases (t.save hashed s)) [
        | inl n ↦ absurd (ground arith)
        | inr ((r, s1), q) ↦
            let same : (issued ≡ tokens) × (s1 ≡ s') = ground arith in
            let (p, a, is_open) = saved_IsPresented now' hashed r s s1 hid refl refl h q in
            rw (← same.0, ← same.1) ((is_active_iff t s1 user.id id now').1 a, r, p, is_open)
      ]
