-- ===== src/Sessions/Replay.antt =====
-- Replaying a refresh token that was already exchanged.
use gym_saas_be.Prelude.{
  ◌≡◌, refl, ◌≢◌, inl, inr, false, none, some, Text, text_eq_iff, arith, ◌<◌, Option-cases, sym,
  ◌∙◌, subst, ap, ==_iff, some-eq,
}
use gym_saas_be.Store.{Uuid, Time}
use gym_saas_be.Errors.{Result, ok}
use gym_saas_be.Entities.{Transactions, Session}
use gym_saas_be.Sessions.{
  SessionTable, SessionRotationResult, rotated, reused, has_id, is_open_in_family, is_refused,
  revoke_at,
}
use gym_saas_be.Sessions.Repository.{rotate, rotate_body, revoke_family}
use gym_saas_be.Sessions.Exchange.{IsPresented, IsReplaced}
use gym_saas_be.Sessions.Rotation.{AfterRotate, rotate_lem}
use gym_saas_be.Sessions.Steps.{Reach}
use gym_saas_be.Sessions.Families.{IsClosedFamily, Reach-kept, Keeps-closed, Keeps-trans}

module _ (t : SessionTable) where
  found-eq :
      (s : t.Store) (i : Uuid) (c : Session) → t.row s i ≡ some c → t.find_any (has_id i) s ≡ some c
  unfolding has_id
  found-eq s i c row = elim (Option-cases (t.find_any (has_id i) s)) [
    | inl n ↦ absurd (ground (arith, t.find_any_none (has_id i) s i c n row, t.row_id s i c row))
    | inr (r, q) ↦
        let (row_r, at_i) = t.find_any_some (has_id i) s r q in
        ground (arith, row_r, at_i, row, (==_iff r.id i).0 at_i)
  ]

  not_refused :
      (s : t.Store) (i user_id : Uuid) (hash : Text) (now : Time) (c : Session)
      → IsPresented t s i user_id hash now c
      → is_refused user_id hash now c ≡ false
  unfolding is_refused
  not_refused s i user_id hash now c p =
      ground (arith, text_eq_iff c.cols.refresh_token_hash hash, p.owned, p.same_hash, p.unexpired)

  closed_body :
      (s : t.Store) (i user_id : Uuid) (hash : Text) (replacement : Session) (now : Time)
      (c : Session)
      → IsPresented t s i user_id hash now c
      → c.cols.revoked_at ≢ none
      → rotate_body t i user_id hash replacement now s
        ≡ (ok reused, t.update (is_open_in_family c.cols.family_id) (revoke_at now) user_id s)
  unfolding rotate_body revoke_family
  closed_body s i user_id hash replacement now c p closed =
      ground (arith, found-eq s i c p.found, not_refused s i user_id hash now c p)

  closed_rotate :
      (d : Transactions t.Store) (s : t.Store) (i user_id : Uuid) (hash : Text)
      (replacement : Session) (now : Time) (c : Session)
      → IsPresented t s i user_id hash now c
      → c.cols.revoked_at ≢ none
      → rotate t d i user_id hash replacement now s
        ≡ (ok reused, t.update (is_open_in_family c.cols.family_id) (revoke_at now) user_id s)
  unfolding rotate
  closed_rotate d s i user_id hash replacement now c p closed =
      d.commit SessionRotationResult (rotate_body t i user_id hash replacement now) s _ reused
        (closed_body s i user_id hash replacement now c p closed)

  -- After the update no row of the family is open.
  family_closed :
      (s : t.Store) (i user_id : Uuid) (now : Time) (c : Session)
      → t.row s i ≡ some c
      → c.cols.revoked_at ≢ none
      → (d : Transactions t.Store)
      → IsClosedFamily t d c.cols.family_id
          (t.update (is_open_in_family c.cols.family_id) (revoke_at now) user_id s)
  unfolding is_open_in_family
  family_closed s i user_id now c row closed d = record {
    member = i;
    known = c;
    member_row =
        ground
          (arith, t.update_row (is_open_in_family c.cols.family_id) (revoke_at now) user_id s i);
    member_family = refl;
    closed = λ j b row_b same is_open.
        let p = is_open_in_family c.cols.family_id in
        ground (arith, t.update_row p (revoke_at now) user_id s j, Option-cases (t.row s j));
  }

  closed_later :
      (d : Transactions t.Store) (s s1 s2 : t.Store) (i user_id : Uuid) (hash : Text)
      (replacement : Session) (now now' : Time) (c : Session)
      → IsPresented t s i user_id hash now c
      → IsReplaced t s s1 c replacement now
      → Reach t d s1 s2
      → now' < c.cols.expires_at
      → (b : Session) × IsPresented t s2 i user_id hash now' b
        × (b.cols.revoked_at ≢ none)
        × (b.cols.family_id ≡ c.cols.family_id)
  closed_later d s s1 s2 i user_id hash replacement now now' c p r reach fresh =
      let at_i =
        subst (λ (j : Uuid). t.row s1 j ≡ some r.closed) (t.row_id s i c p.found) r.closed_row in
      let (b, row_b, kb) = Reach-kept t d reach i r.closed at_i in
      let k = Keeps-trans t d (Keeps-closed t d c replacement now r) kb in
      let again : IsPresented t s2 i user_id hash now' b = record {
        found = row_b;
        owned = k.same_user ∙ p.owned;
        same_hash = k.same_hash ∙ p.same_hash;
        unexpired = rw (k.same_expiry) fresh;
      } in
      (b, again, kb.stays_closed (λ n. ground (arith, n, r.closed_cols)), k.same_family)

  -- A refresh token that was exchanged once and is presented again, at any later time before its
  -- expiry, is answered `reused`, whatever calls were made in between; and then no session of its
  -- family is open.
  pub rotate_replay :
      (d : Transactions t.Store) (s s1 s2 : t.Store) (i user_id : Uuid) (hash : Text)
      (replacement replacement' : Session) (now now' : Time) (c : Session)
      → i ≢ 0
      → replacement.id ≢ 0
      → replacement.id ≢ i
      → t.row s i ≡ some c
      → rotate t d i user_id hash replacement now s ≡ (ok rotated, s1)
      → Reach t d s1 s2
      → now' < c.cols.expires_at
      → let (result, s3) = rotate t d i user_id hash replacement' now' s2 in
        (result ≡ ok reused) × IsClosedFamily t d c.cols.family_id s3
  rotate_replay d s s1 s2 i user_id hash replacement replacement' now now' c hi hr hne row e reach
        fresh =
      let after = λ (o : Result SessionRotationResult × t.Store).
        AfterRotate t s i user_id hash replacement now o.0 o.1 in
      let (c0, p, is_open, r) =
        subst after e (rotate_lem t d s i user_id hash replacement now hi hr hne) in
      replayed c0 p r (some-eq (sym p.found ∙ row))
    where
      replayed :
          (c0 : Session)
          → IsPresented t s i user_id hash now c0
          → IsReplaced t s s1 c0 replacement now
          → c0 ≡ c
          → let (result, s3) = rotate t d i user_id hash replacement' now' s2 in
            (result ≡ ok reused) × IsClosedFamily t d c.cols.family_id s3
      replayed c0 p r same =
          let until = ap (λ (x : Session). x.cols.expires_at) same in
          let (b, again, shut, family) =
            closed_later d s s1 s2 i user_id hash replacement now now' c0 p r reach
              (rw until fresh) in
          rw (closed_rotate d s2 i user_id hash replacement' now' b again shut) (
            refl,
            subst
                (λ (f : Uuid).
                  IsClosedFamily t d f
                    (t.update (is_open_in_family b.cols.family_id) (revoke_at now') user_id s2))
                (family ∙ ap (λ (x : Session). x.cols.family_id) same)
                (family_closed s2 i user_id now' b again.found shut d),
          )
