-- ===== src/Sessions/Progress.antt =====
-- A session that is presented in time is exchanged: the only way to fail is a query that fails.
use gym_saas_be.Prelude.{
  ◌≡◌, refl, ◌≢◌, ◌⊎◌, inl, inr, true, Option, none, Text, arith, Option-cases, Bool-cases, is_some,
  subst, ◌∙◌, ◌<◌,
}
use gym_saas_be.Store.{Uuid, Time}
use gym_saas_be.Errors.{Exception, Result, ok, err, query_failed}
use gym_saas_be.Entities.{Transactions, Session, Action}
use gym_saas_be.Sessions.{
  SessionTable, SessionRotationResult, rotated, invalid, reused, is_refused, has_id, consume, adopt,
}
use gym_saas_be.Sessions.Repository.{
  save, replace, revoke_family, rotate_found, rotate_body, rotate, is_active,
}
use gym_saas_be.Sessions.Exchange.{IsPresented, IsReplaced}
use gym_saas_be.Sessions.Revocation.{is_active_iff}
use gym_saas_be.Sessions.Rotation.{AfterRotate, rotate_lem}

abbrev pub IsQueryFailure : Exception → Type 0
IsQueryFailure x = (code : Option Text) × (x ≡ query_failed code)

module _ (t : SessionTable) where
  replace_err :
      (current : Session) (user_id : Uuid) (replacement : Session) (now : Time) (s s' : t.Store)
      (x : Exception)
      → replace t current user_id replacement now s ≡ (err x, s')
      → IsQueryFailure x
  unfolding replace save
  replace_err current user_id replacement now s s' x e =
      elim (Option-cases (t.save (consume user_id replacement now current) s)) [
        | inl n ↦ (t.save_error (consume user_id replacement now current) s, ground arith)
        | inr ((r1, s1), q) ↦ elim (Option-cases (t.save (adopt current replacement) s1)) [
          | inl n ↦ (t.save_error (adopt current replacement) s1, ground arith)
          | inr ((r2, s2), q2) ↦ absurd (ground arith)
        ]
      ]

  rotate_body_err :
      (current_id user_id : Uuid) (hash : Text) (replacement : Session) (now : Time)
      (s s' : t.Store) (x : Exception)
      → rotate_body t current_id user_id hash replacement now s ≡ (err x, s')
      → IsQueryFailure x
  unfolding rotate_body rotate_found revoke_family
  rotate_body_err current_id user_id hash replacement now s s' x e =
      elim (Option-cases (t.find_any (has_id current_id) s)) [
        | inl n ↦ absurd (ground arith)
        | inr (c, q) ↦ elim (Bool-cases (is_refused user_id hash now c)) [
          | inl r ↦ absurd (ground arith)
          | inr r ↦ elim (Bool-cases (is_some c.cols.revoked_at)) [
            | inl o ↦ absurd (ground arith)
            | inr o ↦ replace_err c user_id replacement now s s' x (ground arith)
          ]
        ]
      ]

  rotate_err :
      (d : Transactions t.Store) (s s' : t.Store) (current_id user_id : Uuid) (hash : Text)
      (replacement : Session) (now : Time) (x : Exception)
      → rotate t d current_id user_id hash replacement now s ≡ (err x, s')
      → IsQueryFailure x
  unfolding rotate
  rotate_err d s s' current_id user_id hash replacement now x e = by_outcome (body s) refl
    where
      body : Action t.Store SessionRotationResult
      body = rotate_body t current_id user_id hash replacement now

      by_outcome : (o : Result SessionRotationResult × t.Store) → body s ≡ o → IsQueryFailure x
      by_outcome (ok r, s1) q =
          absurd (ground (arith, d.commit SessionRotationResult body s s1 r q, e))
      by_outcome (err y, s1) q =
          let same : y ≡ x = ground (arith, d.rollback SessionRotationResult body s s1 y q, e) in
          rw (← same) (rotate_body_err current_id user_id hash replacement now s s1 y q)

  -- How the exchange of an open session ends.
  abbrev pub Progress :
      t.Store → Session → Session → Time → Result SessionRotationResult × t.Store → Type 0
  Progress s current replacement now o =
      ((o.0 ≡ ok rotated) × IsReplaced t s o.1 current replacement now)
      ⊎ ((x : Exception) × (o.0 ≡ err x) × IsQueryFailure x × (o.1 ≡ s))

  AfterRotate-Progress :
      (s : t.Store) (current_id user_id : Uuid) (hash : Text) (replacement current : Session)
      (now : Time) (o : Result SessionRotationResult × t.Store)
      → IsPresented t s current_id user_id hash now current
      → current.cols.revoked_at ≡ none
      → AfterRotate t s current_id user_id hash replacement now o.0 o.1
      → ((x : Exception) → o.0 ≡ err x → IsQueryFailure x)
      → Progress s current replacement now o
  AfterRotate-Progress s i u hash replacement c now (ok rotated, s') p is_open (c', p', open', r)
        failed =
      let same : c' ≡ c = ground (arith, p.found, p'.found) in
      inl (refl, subst (λ (x : Session). IsReplaced t s s' x replacement now) same r)
  AfterRotate-Progress s i u hash replacement c now (ok reused, s') p is_open (c', p', closed, r)
        failed =
      absurd (closed (ground (arith, p.found, p'.found, is_open)))
  AfterRotate-Progress s i u hash replacement c now (ok invalid, s') p is_open
        (none_presented, same) failed =
      absurd (none_presented c p)
  AfterRotate-Progress s i u hash replacement c now (err x, s') p is_open same failed =
      inr (x, refl, failed x refl, same)

  -- A presented session that is open is exchanged, or a query fails and nothing has changed.
  pub rotate-Progress :
      (d : Transactions t.Store) (s : t.Store) (current_id user_id : Uuid) (hash : Text)
      (replacement current : Session) (now : Time)
      → current_id ≢ 0
      → replacement.id ≢ 0
      → replacement.id ≢ current_id
      → IsPresented t s current_id user_id hash now current
      → current.cols.revoked_at ≡ none
      → Progress s current replacement now (rotate t d current_id user_id hash replacement now s)
  rotate-Progress d s i u hash replacement current now hc hr hne p is_open =
      let o = rotate t d i u hash replacement now s in
      AfterRotate-Progress s i u hash replacement current now o p is_open
        (rotate_lem t d s i u hash replacement now hc hr hne)
        (λ x e. rotate_err d s o.1 i u hash replacement now x (ground arith))

  -- What replaced a session is active until it expires.
  pub IsReplaced-is_active :
      (s s' : t.Store) (current replacement : Session) (now now' : Time) (user_id : Uuid)
      → IsReplaced t s s' current replacement now
      → replacement.cols.user_id ≡ user_id
      → replacement.cols.revoked_at ≡ none
      → replacement.deleted_at ≡ none
      → now' < replacement.cols.expires_at
      → is_active t user_id replacement.id now' s' ≡ true
  IsReplaced-is_active s s' current replacement now now' u r owned is_open live h =
      (is_active_iff t s' u replacement.id now').1 (record {
        session = r.stored;
        found = r.stored_row;
        live = r.stored_deleted_at ∙ live;
        owned = rw r.stored_cols owned;
        is_open = rw r.stored_cols is_open;
        unexpired = rw r.stored_cols h;
      })
