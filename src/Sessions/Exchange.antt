-- ===== src/Sessions/Exchange.antt =====
-- The terms in which an exchange is told, and the writes of one that goes through.
use gym_saas_be.Prelude.{
  ◌≡◌, ◌≢◌, inl, inr, none, some, Text, arith, ◌<◌, if◌then◌else◌, Option-cases,
}
use gym_saas_be.Store.{Uuid, Time, account, map_row}
use gym_saas_be.Errors.{ok}
use gym_saas_be.Entities.{Session}
use gym_saas_be.Sessions.{
  SessionTable, SessionRotationResult, rotated, is_open_in_family, revoke_at, consume, adopt,
  after_update,
}
use gym_saas_be.Sessions.Repository.{save, replace}

module _ (t : SessionTable) where
  -- A session that may be exchanged by this user with this token hash at this time.
  pub record IsPresented (s : t.Store) (current_id user_id : Uuid) (hash : Text) (now : Time)
      (current : Session) : Type 0 where
    pub found : t.row s current_id ≡ some current
    pub owned : current.cols.user_id ≡ user_id
    pub same_hash : current.cols.refresh_token_hash ≡ hash
    pub unexpired : now < current.cols.expires_at

  -- The session is closed, its replacement stored in its family, and every other row is as before.
  pub record IsReplaced (s s' : t.Store) (current replacement : Session) (now : Time) : Type 0 where
    pub closed : Session
    pub closed_row : t.row s' current.id ≡ some closed
    pub closed_cols : closed.cols ≡ record (current.cols) {
      revoked_at = some now;
      last_used_at = some now;
      replaced_by_session_id = some replacement.id;
    }
    pub stored : Session
    pub stored_row : t.row s' replacement.id ≡ some stored
    pub stored_cols : stored.cols ≡ record (replacement.cols) { family_id = current.cols.family_id }
    pub stored_deleted_at : stored.deleted_at ≡ replacement.deleted_at
    pub others : (i : Uuid) → i ≢ current.id → i ≢ replacement.id → t.row s' i ≡ t.row s i

  -- Every open session of the family is closed, by this user and at this time, and every other row
  -- is as before: a session of another family, and one of this family that was closed already.
  pub record IsFamilyRevoked (s s' : t.Store) (family_id user_id : Uuid) (now : Time) : Type 0 where
    pub revoked :
        (i : Uuid) (a : Session)
        → t.row s i ≡ some a
        → a.cols.family_id ≡ family_id
        → a.cols.revoked_at ≡ none
        → t.row s' i
          ≡ some (record a {
            base = record (a.base) {
              updated_at = some (t.clock s);
              updated_by = some (account user_id);
            };
            cols = record (a.cols) { revoked_at = some now };
          })
    pub other_family :
        (i : Uuid) (a : Session)
        → t.row s i ≡ some a
        → a.cols.family_id ≢ family_id
        → t.row s' i ≡ some a
    pub closed_before :
        (i : Uuid) (a : Session)
        → t.row s i ≡ some a
        → a.cols.revoked_at ≢ none
        → t.row s' i ≡ some a
    pub none_added : (i : Uuid) → t.row s i ≡ none → t.row s' i ≡ none

  pub update-IsFamilyRevoked :
      (s : t.Store) (family_id user_id : Uuid) (now : Time)
      → IsFamilyRevoked s
          (t.update (is_open_in_family family_id) (revoke_at now) user_id s)
          family_id
          user_id
          now
  unfolding is_open_in_family
  update-IsFamilyRevoked s family_id user_id now =
      let row = t.update_row (is_open_in_family family_id) (revoke_at now) user_id s in
      record {
        revoked = λ i a e same is_open. ground (arith, row i);
        other_family = λ i a e other. ground (arith, row i);
        closed_before = λ i a e closed. ground (arith, row i);
        none_added = λ i e. ground (arith, row i);
      }

  -- The same as one function on the rows.
  abbrev pub close_family : Time → Uuid → Uuid → Time → Session → Session
  close_family at family_id user_id now r =
      if is_open_in_family family_id r then after_update at (revoke_at now) user_id r else r

  pub IsFamilyRevoked-rows :
      (s s' : t.Store) (family_id user_id : Uuid) (now : Time)
      → IsFamilyRevoked s s' family_id user_id now
      → (i : Uuid)
      → t.row s' i ≡ map_row (close_family (t.clock s) family_id user_id now) (t.row s i)
  unfolding is_open_in_family
  IsFamilyRevoked-rows s s' family_id user_id now h i = elim (Option-cases (t.row s i)) [
    | inl n ↦ ground (arith, h.none_added i n)
    | inr (a, e) ↦ ground (arith, h.revoked i a e, h.other_family i a e, h.closed_before i a e)
  ]

  pub save_some :
      (r : Session) (s s' : t.Store) (r' : Session)
      → save t r s ≡ (ok r', s')
      → t.save r s ≡ some (r', s')
  unfolding save
  save_some r s s' r' e = elim (Option-cases (t.save r s)) [
    | inl n ↦ ground arith
    | inr (x, q) ↦ ground arith
  ]

  replace-some :
      (current : Session) (user_id : Uuid) (replacement : Session) (now : Time) (s s' : t.Store)
      (result : SessionRotationResult)
      → replace t current user_id replacement now s ≡ (ok result, s')
      → (result ≡ rotated)
        × (r1 : Session) × (s1 : t.Store) × (r2 : Session) × (t.save
              (consume user_id replacement now current)
              s
            ≡ some (r1, s1))
        × (t.save (adopt current replacement) s1 ≡ some (r2, s'))
  unfolding replace save
  replace-some current user_id replacement now s s' result e =
      elim (Option-cases (t.save (consume user_id replacement now current) s)) [
        | inl n ↦ absurd (ground arith)
        | inr ((r1, s1), q) ↦ elim (Option-cases (t.save (adopt current replacement) s1)) [
          | inl n ↦ absurd (ground arith)
          | inr ((r2, s2), q2) ↦ (ground arith, r1, s1, r2, q, ground arith)
        ]
      ]

  pub replace-IsReplaced :
      (current : Session) (user_id : Uuid) (replacement : Session) (now : Time) (s s' : t.Store)
      (result : SessionRotationResult)
      → current.id ≢ 0
      → replacement.id ≢ 0
      → replacement.id ≢ current.id
      → replace t current user_id replacement now s ≡ (ok result, s')
      → (result ≡ rotated) × IsReplaced s s' current replacement now
  unfolding consume adopt
  replace-IsReplaced current user_id replacement now s s' result hc hr hne e =
      let (done, r1, s1, r2, q1, q2) = replace-some current user_id replacement now s s' result e in
      let i1 : r1.id ≡ current.id = t.save_id _ r1 s s1 q1 hc in
      let i2 : r2.id ≡ replacement.id = t.save_id _ r2 s1 s' q2 hr in
      (
        done,
        record {
          closed = r1;
          closed_row =
              ground
                (arith, t.save_row _ r1 s s1 current.id q1, t.save_row _ r2 s1 s' current.id q2);
          closed_cols = t.save_cols _ r1 s s1 q1;
          stored = r2;
          stored_row = ground (arith, t.save_row _ r2 s1 s' replacement.id q2);
          stored_cols = t.save_cols _ r2 s1 s' q2;
          stored_deleted_at = t.save_deleted_at _ r2 s1 s' q2;
          others = λ i n m. ground (arith, t.save_row _ r1 s s1 i q1, t.save_row _ r2 s1 s' i q2);
        },
      )
