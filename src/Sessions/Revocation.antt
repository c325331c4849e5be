-- ===== src/Sessions/Revocation.antt =====
-- Revoking sessions, and what `isActive` says before and after.
use gym_saas_be.Prelude.{
  ◌≡◌, refl, ◌≢◌, ◌↔◌, inl, inr, Bool, true, false, none, some, arith, ◌<◌, Option-cases, subst,
  with_default, ltb→lt, lt→ltb,
}
use gym_saas_be.Store.{Uuid, Time}
use gym_saas_be.Store.Queries.{count-pos, count-Seen}
use gym_saas_be.Entities.{Session}
use gym_saas_be.Sessions.{SessionTable, is_active_session, is_open_owned, is_open_other, revoke_at}
use gym_saas_be.Sessions.Repository.{is_active, revoke_owned, revoke_all_except}

module _ (t : SessionTable) where
  -- An active session: its row is live, belongs to the user, is open and has not expired.
  pub record IsActive (s : t.Store) (user_id session_id : Uuid) (now : Time) : Type 0 where
    pub session : Session
    pub found : t.row s session_id ≡ some session
    pub live : session.deleted_at ≡ none
    pub owned : session.cols.user_id ≡ user_id
    pub is_open : session.cols.revoked_at ≡ none
    pub unexpired : now < session.cols.expires_at

  is_active-IsActive :
      (s : t.Store) (user_id session_id : Uuid) (now : Time)
      → is_active t user_id session_id now s ≡ true
      → IsActive s user_id session_id now
  unfolding is_active is_active_session
  is_active-IsActive s user_id session_id now h =
      let p = is_active_session user_id session_id now in
      let (r, row, seen) = count-Seen t.table p s (ground arith) in
      let e : p r ≡ true = seen.1 in
      record {
        session = r;
        found = subst (λ (i : Uuid). t.row s i ≡ some r) (ground arith) row;
        live = seen.0;
        owned = ground arith;
        is_open = ground arith;
        unexpired = ground arith;
      }

  IsActive-is_active :
      (s : t.Store) (user_id session_id : Uuid) (now : Time)
      → IsActive s user_id session_id now
      → is_active t user_id session_id now s ≡ true
  unfolding is_active is_active_session
  IsActive-is_active s user_id session_id now a =
      let p = is_active_session user_id session_id now in
      let id = t.row_id s session_id a.session a.found in
      ground
        (arith, count-pos t.table p s session_id a.session a.found (a.live, ground (arith, id)))

  -- `isActive` answers true exactly for an open, unexpired, not deleted session of that user.
  pub is_active_iff :
      (s : t.Store) (user_id session_id : Uuid) (now : Time)
      → (is_active t user_id session_id now s ≡ true) ↔ IsActive s user_id session_id now
  is_active_iff s user_id session_id now =
      (is_active-IsActive s user_id session_id now, IsActive-is_active s user_id session_id now)

  -- A row that an update leaves open was there before, and the update did not match it.
  open_after :
      (p : Session → Bool) (u : Uuid) (now : Time) (s : t.Store) (i : Uuid) (b : Session)
      → t.row (t.update p (revoke_at now) u s) i ≡ some b
      → b.cols.revoked_at ≡ none
      → (t.row s i ≡ some b) × (p b ≡ false)
  open_after p u now s i b row is_open =
      ground (arith, t.update_row p (revoke_at now) u s i, Option-cases (t.row s i))

  untouched :
      (p : Session → Bool) (u : Uuid) (now : Time) (s : t.Store) (i : Uuid)
      → ((a : Session) → t.row s i ≡ some a → p a ≡ false)
      → t.row (t.update p (revoke_at now) u s) i ≡ t.row s i
  untouched p u now s i h = elim (Option-cases (t.row s i)) [
    | inl n ↦ ground (arith, t.update_row p (revoke_at now) u s i)
    | inr (a, e) ↦ ground (arith, t.update_row p (revoke_at now) u s i, h a e)
  ]

  abbrev pub HasOpen : t.Store → Uuid → Uuid → Type 0
  HasOpen s user_id session_id =
      (a : Session) × (t.row s session_id ≡ some a)
      × (a.cols.user_id ≡ user_id)
      × (a.cols.revoked_at ≡ none)

  affected-HasOpen :
      (user_id session_id : Uuid) (s : t.Store)
      → 0 < with_default 0 (t.affected (is_open_owned user_id session_id) s)
      → HasOpen s user_id session_id
  unfolding is_open_owned
  affected-HasOpen user_id session_id s h =
      let (i, a, row, e) = t.affected_some (is_open_owned user_id session_id) s h in
      let at_id : i ≡ session_id = ground (arith, t.row_id s i a row) in
      (a, subst (λ (j : Uuid). t.row s j ≡ some a) at_id row, ground arith, ground arith)

  HasOpen-affected :
      (user_id session_id : Uuid) (s : t.Store)
      → HasOpen s user_id session_id
      → 0 < with_default 0 (t.affected (is_open_owned user_id session_id) s)
  unfolding is_open_owned
  HasOpen-affected user_id session_id s (a, row, owned, is_open) = ground (
    arith,
    t.affected_none (is_open_owned user_id session_id) s session_id a,
    t.row_id s session_id a row,
    row,
  )

  not-IsActive_after :
      (user_id session_id : Uuid) (now now' : Time) (s : t.Store)
      → let s' = t.update (is_open_owned user_id session_id) (revoke_at now) user_id s in
        ¬ IsActive s' user_id session_id now'
  unfolding is_open_owned
  not-IsActive_after user_id session_id now now' s a =
      let p = is_open_owned user_id session_id in
      let (row, unmatched) = open_after p user_id now s session_id a.session a.found a.is_open in
      ground (arith, t.row_id s session_id a.session row, unmatched, a.owned, a.is_open)

  false_of_not : {P : Type 0} (b : Bool) → (b ≡ true → P) → ¬ P → b ≡ false
  false_of_not true h n = absurd (n (h refl))
  false_of_not false h n = refl

  -- Revoking a session answers whether this user had it open; whatever it answers, that session is
  -- not active for this user afterwards, its row is as it was if it is another user's, and no other
  -- row has changed.
  pub revoke_owned_lem :
      (user_id session_id : Uuid) (now now' : Time) (s : t.Store)
      → let (done, s') = revoke_owned t user_id session_id now s in
        ((done ≡ true) ↔ (
          (a : Session) × (t.row s session_id ≡ some a)
          × (a.cols.user_id ≡ user_id)
          × (a.cols.revoked_at ≡ none)))
        × (is_active t user_id session_id now' s' ≡ false)
        × ((a : Session)
            → t.row s session_id ≡ some a
            → a.cols.user_id ≢ user_id
            → t.row s' session_id ≡ some a)
        × ((i : Uuid) → i ≢ session_id → t.row s' i ≡ t.row s i)
  unfolding revoke_owned is_open_owned
  revoke_owned_lem user_id session_id now now' s = (
    (
      (λ h. affected-HasOpen user_id session_id s (ltb→lt _ _ h)),
      (λ h. lt→ltb _ _ (HasOpen-affected user_id session_id s h)),
    ),
    false_of_not _ (λ h. is_active-IsActive _ user_id session_id now' h)
        (not-IsActive_after user_id session_id now now' s),
    (λ a e other. ground (
      arith,
      t.update_row (is_open_owned user_id session_id) (revoke_at now) user_id s session_id,
    )),
    λ i n.
        untouched (is_open_owned user_id session_id) user_id now s i
          (λ a e. ground (arith, t.row_id s i a e)),
  )

  -- Revoking all other sessions leaves the user no active session but the excluded one, whose row
  -- is as it was, as are the rows of other users.
  pub revoke_all_except_lem :
      (user_id excluded_id : Uuid) (now : Time) (s : t.Store)
      → let (count, s') = revoke_all_except t user_id excluded_id now s in
        ((i : Uuid) (now' : Time) → is_active t user_id i now' s' ≡ true → i ≡ excluded_id)
        × (t.row s' excluded_id ≡ t.row s excluded_id)
        × ((i : Uuid) (a : Session)
            → t.row s i ≡ some a
            → a.cols.user_id ≢ user_id
            → t.row s' i ≡ some a)
  unfolding revoke_all_except is_open_other
  revoke_all_except_lem user_id excluded_id now s =
      let p = is_open_other user_id excluded_id in
      (
        (λ i now' h.
            let a = is_active-IsActive _ user_id i now' h in
            let (row, unmatched) = open_after p user_id now s i a.session a.found a.is_open in
            ground (arith, t.row_id s i a.session row, unmatched, a.owned, a.is_open)),
        untouched p user_id now s excluded_id (λ a e. ground (arith, t.row_id s excluded_id a e)),
        λ i a row other. ground (arith, t.update_row p (revoke_at now) user_id s i),
      )
