-- ===== src/Sessions/Rotation.antt =====
-- What `rotate` does on every branch, on the rows of the table.
use gym_saas_be.Prelude.{
  ◌≡◌, refl, ◌≢◌, inl, inr, true, false, none, some, Text, text_eq_iff, arith, is_some, Bool-cases,
  Option-cases, subst,
}
use gym_saas_be.Store.{Uuid, Time}
use gym_saas_be.Errors.{Result, ok, err}
use gym_saas_be.Entities.{Transactions, Session, Action}
use gym_saas_be.Sessions.{
  SessionTable, SessionRotationResult, rotated, invalid, reused, has_id, is_open_in_family,
  revoke_at, is_refused,
}
use gym_saas_be.Sessions.Repository.{revoke_family, rotate_found, rotate_body, rotate}
use gym_saas_be.Sessions.Exchange.{
  IsPresented, IsReplaced, IsFamilyRevoked, update-IsFamilyRevoked, replace-IsReplaced,
}

module _ (t : SessionTable) where
  -- What a call has done, by how it ended.
  abbrev pub Outcome :
      t.Store → Uuid → Uuid → Text → Session → Time → SessionRotationResult → t.Store → Type 0
  Outcome s current_id user_id hash replacement now rotated s' =
      (c : Session) × IsPresented t s current_id user_id hash now c
      × (c.cols.revoked_at ≡ none)
      × IsReplaced t s s' c replacement now
  Outcome s current_id user_id hash replacement now reused s' =
      (c : Session) × IsPresented t s current_id user_id hash now c
      × (c.cols.revoked_at ≢ none)
      × IsFamilyRevoked t s s' c.cols.family_id user_id now
  Outcome s current_id user_id hash replacement now invalid s' =
      ((c : Session) → ¬ IsPresented t s current_id user_id hash now c) × (s' ≡ s)

  accepted :
      (s : t.Store) (current_id user_id : Uuid) (hash : Text) (now : Time) (c : Session)
      → t.row s current_id ≡ some c
      → is_refused user_id hash now c ≡ false
      → IsPresented t s current_id user_id hash now c
  unfolding is_refused
  accepted s current_id user_id hash now c e h = record {
    found = e;
    owned = ground arith;
    same_hash = ground (arith, text_eq_iff c.cols.refresh_token_hash hash);
    unexpired = ground arith;
  }

  refused :
      (s : t.Store) (current_id user_id : Uuid) (hash : Text) (now : Time) (c c' : Session)
      → t.row s current_id ≡ some c
      → is_refused user_id hash now c ≡ true
      → ¬ IsPresented t s current_id user_id hash now c'
  unfolding is_refused
  refused s current_id user_id hash now c c' e h p = ground (
    arith,
    text_eq_iff c.cols.refresh_token_hash hash,
    p.found,
    p.owned,
    p.same_hash,
    p.unexpired,
  )

  rotate_found_lem :
      (s s' : t.Store) (c : Session) (user_id : Uuid) (hash : Text) (replacement : Session)
      (now : Time) (result : SessionRotationResult)
      → t.row s c.id ≡ some c
      → c.id ≢ 0
      → replacement.id ≢ 0
      → replacement.id ≢ c.id
      → rotate_found t c user_id hash replacement now s ≡ (ok result, s')
      → Outcome s c.id user_id hash replacement now result s'
  unfolding rotate_found revoke_family
  rotate_found_lem s s' c user_id hash replacement now result row hc hr hne e =
      elim (Bool-cases (is_refused user_id hash now c)) [
        | inl q ↦
            let same : (result ≡ invalid) × (s' ≡ s) = ground arith in
            rw (same.0, same.1) ((λ c'. refused s c.id user_id hash now c c' row q), refl)
        | inr q ↦
            let p = accepted s c.id user_id hash now c row q in
            elim (Bool-cases (is_some c.cols.revoked_at)) [
              | inl n ↦ rw (dead q n).0 (
                c,
                p,
                ground arith,
                rw (dead q n).1 (update-IsFamilyRevoked t s c.cols.family_id user_id now),
              )
              | inr n ↦
                  let (done, r) =
                    replace-IsReplaced t c user_id replacement now s s' result hc hr hne
                      (rw (q, n) at e) in
                  rw done (c, p, ground arith, r)
            ]
      ]
    where
      dead :
          is_refused user_id hash now c ≡ false
          → is_some c.cols.revoked_at ≡ true
          → (result ≡ reused)
            × (s' ≡ t.update (is_open_in_family c.cols.family_id) (revoke_at now) user_id s)
      dead q n = ground arith

  rotate_body_lem :
      (s s' : t.Store) (current_id user_id : Uuid) (hash : Text) (replacement : Session)
      (now : Time) (result : SessionRotationResult)
      → current_id ≢ 0
      → replacement.id ≢ 0
      → replacement.id ≢ current_id
      → rotate_body t current_id user_id hash replacement now s ≡ (ok result, s')
      → Outcome s current_id user_id hash replacement now result s'
  unfolding rotate_body has_id
  rotate_body_lem s s' current_id user_id hash replacement now result hc hr hne e =
      elim (Option-cases (t.find_any (has_id current_id) s)) [
        | inl n ↦
            let same : (result ≡ invalid) × (s' ≡ s) = ground arith in
            rw (same.0, same.1) ((λ c p. ground (arith, p.found, unknown n c p.found)), refl)
        | inr (c, q) ↦
            let here = t.find_any_some (has_id current_id) s c q in
            let same : c.id ≡ current_id = ground arith in
            let at_id = λ (i : Uuid). Outcome s i user_id hash replacement now result s' in
            subst at_id same (
              rotate_found_lem s s' c user_id hash replacement now result here.0 (ground arith) hr
                (ground arith) (ground arith))
      ]
    where
      unknown :
          t.find_any (has_id current_id) s ≡ none → (c : Session) → t.row s current_id ≡ some c → ⊥
      unknown n c row = ground (
        arith,
        t.find_any_none (has_id current_id) s current_id c n row,
        t.row_id s current_id c row,
      )

  -- What the repository's `rotate` has done, also when it throws.
  abbrev pub AfterRotate :
      t.Store
      → Uuid
      → Uuid
      → Text
      → Session
      → Time
      → Result SessionRotationResult
      → t.Store
      → Type 0
  AfterRotate s current_id user_id hash replacement now (ok result) s' =
      Outcome s current_id user_id hash replacement now result s'
  AfterRotate s current_id user_id hash replacement now (err e) s' = s' ≡ s

  -- Exchanging a refresh token: `rotated` means that a known, owned, unexpired and open session
  -- with that token was closed in favour of the replacement, which joins its family; `reused`
  -- that it was closed already, that the open sessions of its family are now closed by this user at
  -- this time, and that every row of another family or closed before is as it was; `invalid`, that
  -- no such session is known, owned and unexpired with that token, and that nothing changed; an
  -- exception, that nothing changed.
  pub rotate_lem :
      (d : Transactions t.Store) (s : t.Store) (current_id user_id : Uuid) (hash : Text)
      (replacement : Session) (now : Time)
      → current_id ≢ 0
      → replacement.id ≢ 0
      → replacement.id ≢ current_id
      → let (result, s') = rotate t d current_id user_id hash replacement now s in
        AfterRotate s current_id user_id hash replacement now result s'
  unfolding rotate
  rotate_lem d s current_id user_id hash replacement now hc hr hne =
      go (rotate_body t current_id user_id hash replacement now s) refl
    where
      body : Action t.Store SessionRotationResult
      body = rotate_body t current_id user_id hash replacement now

      go :
          (o : Result SessionRotationResult × t.Store)
          → body s ≡ o
          → let (result, s') = d.transaction SessionRotationResult body s in
            AfterRotate s current_id user_id hash replacement now result s'
      go (ok result, s') e =
          rw (d.commit SessionRotationResult body s s' result e)
            (rotate_body_lem s s' current_id user_id hash replacement now result hc hr hne e)
      go (err x, s') e = rw (d.rollback SessionRotationResult body s s' x e) refl
