-- ===== src/Sessions/Families.antt =====
-- What any sequence of calls keeps of a family of sessions.
use gym_saas_be.Prelude.{
  ◌≡◌, refl, ◌≢◌, ◌⊎◌, inl, inr, none, some, arith, ◌==◌, Bool-cases, sym, subst, ◌∙◌, ==_iff,
}
use gym_saas_be.Store.{Uuid, Time}
use gym_saas_be.Entities.{Transactions, Session}
use gym_saas_be.Sessions.{SessionTable}
use gym_saas_be.Sessions.Exchange.{IsReplaced}
use gym_saas_be.Sessions.Steps.{
  Keeps, Keeps-refl, Reach, here, next, Effect, quiet, opens, exchanges, Step-Effect, came_from,
  Keeps-open,
}

module _ (t : SessionTable) (d : Transactions t.Store) where
  -- A family has at most one open session.
  abbrev pub IsSingle : t.Store → Type 0
  IsSingle s =
      (i j : Uuid) (a b : Session)
      → t.row s i ≡ some a
      → t.row s j ≡ some b
      → a.cols.family_id ≡ b.cols.family_id
      → a.cols.revoked_at ≡ none
      → b.cols.revoked_at ≡ none
      → i ≡ j

  -- Where an open session stands after an exchange.
  placed :
      {s s' : t.Store} (c replacement : Session) (now : Time)
      → IsReplaced t s s' c replacement now
      → (i : Uuid) (a : Session) → t.row s' i ≡ some a
      → a.cols.revoked_at ≡ none
      → ((i ≡ replacement.id) × (a.cols.family_id ≡ c.cols.family_id))
        ⊎ ((t.row s i ≡ some a) × (i ≢ c.id))
  placed c replacement now r i a row is_open = elim (Bool-cases (i == replacement.id)) [
    | inl e ↦ inl (
      (==_iff _ _).0 e,
      ground (arith, (==_iff i replacement.id).0 e, r.stored_row, r.stored_cols),
    )
    | inr e ↦ elim (Bool-cases (i == c.id)) [
      | inl q ↦ absurd (ground (arith, (==_iff i c.id).0 q, r.closed_row, r.closed_cols))
      | inr q ↦ inr (ground (arith, r.others i), ground arith)
    ]
  ]

  Effect-IsSingle : {s s' : t.Store} → Effect t d s s' → IsSingle s → IsSingle s'
  Effect-IsSingle {s} (quiet f k rows) single i j a' b' ra rb same oa ob =
      let (a, fa, ea) = came_from t d f (t.row s i) a' (sym (rows i) ∙ ra) in
      let (b, fb, eb) = came_from t d f (t.row s j) b' (sym (rows j) ∙ rb) in
      let ka = subst (Keeps a) ea (k a) in
      let kb = subst (Keeps b) eb (k b) in
      single i j a b fa fb (sym ka.same_family ∙ same ∙ kb.same_family) (Keeps-open t d ka oa)
        (Keeps-open t d kb ob)
  Effect-IsSingle {s} (opens r unused new rows) single i j a' b' ra rb same oa ob =
      ground (arith, rows i, rows j, new i a', new j b', single i j a' b')
  Effect-IsSingle {s} (exchanges c replacement now at_c is_open new r) single i j a b ra rb same oa
        ob =
      ground (
        arith,
        placed c replacement now r i a ra oa,
        placed c replacement now r j b rb ob,
        single i j a b,
        single i c.id a c,
        single j c.id b c,
      )

  -- Where no family has two open sessions, none has two after any sequence of the service's calls.
  pub Reach-IsSingle : {s s' : t.Store} → IsSingle s → Reach t d s s' → IsSingle s'
  Reach-IsSingle h here = h
  Reach-IsSingle h (next r st) = Effect-IsSingle (Step-Effect t d st) (Reach-IsSingle h r)

  -- A family that is known and has no open session.
  pub record IsClosedFamily (family_id : Uuid) (s : t.Store) : Type 0 where
    pub member : Uuid
    pub known : Session
    pub member_row : t.row s member ≡ some known
    pub member_family : known.cols.family_id ≡ family_id
    pub closed :
        (i : Uuid) (a : Session)
        → t.row s i ≡ some a
        → a.cols.family_id ≡ family_id
        → a.cols.revoked_at ≢ none

  pub Keeps-closed :
      {s s' : t.Store} (c replacement : Session) (now : Time)
      (r : IsReplaced t s s' c replacement now)
      → Keeps c r.closed
  Keeps-closed c replacement now r = record {
    same_family = ground (arith, r.closed_cols);
    same_user = ground (arith, r.closed_cols);
    same_hash = ground (arith, r.closed_cols);
    same_expiry = ground (arith, r.closed_cols);
    stays_closed = λ h n. ground (arith, r.closed_cols);
  }

  -- No row disappears.
  Effect-kept :
      {s s' : t.Store}
      → Effect t d s s'
      → (i : Uuid) (a : Session) → t.row s i ≡ some a
      → (b : Session) × (t.row s' i ≡ some b) × Keeps a b
  Effect-kept (quiet f k rows) i a row = (f a, rw (rows i, row) refl, k a)
  Effect-kept {s} (opens r unused new rows) i a row = (a, ground (arith, rows i), Keeps-refl a)
  Effect-kept {s} (exchanges c replacement now at_c is_open new r) i a row =
      elim (Bool-cases (i == c.id)) [
        | inl e ↦
            let same : a ≡ c = ground (arith, (==_iff i c.id).0 e) in
            (
              r.closed,
              rw ((==_iff i c.id).0 e) r.closed_row,
              rw same (Keeps-closed c replacement now r),
            )
        | inr e ↦ (a, rw (r.others i (ground arith) (ground arith)) row, Keeps-refl a)
      ]

  Effect-closed :
      {s s' : t.Store} (family_id : Uuid)
      → Effect t d s s'
      → IsClosedFamily family_id s
      → (i : Uuid) (b : Session) → t.row s' i ≡ some b
      → b.cols.family_id ≡ family_id
      → b.cols.revoked_at ≢ none
  Effect-closed {s} family_id (quiet f k rows) dead i b row same is_open =
      let (a, fa, ea) = came_from t d f (t.row s i) b (sym (rows i) ∙ row) in
      let ka = subst (Keeps a) ea (k a) in
      dead.closed i a fa (sym ka.same_family ∙ same) (Keeps-open t d ka is_open)
  Effect-closed {s} family_id (opens r unused new rows) dead i b row same is_open = ground (
    arith,
    rows i,
    new dead.member dead.known dead.member_row,
    dead.member_family,
    dead.closed i b,
  )
  Effect-closed family_id (exchanges c replacement now at_c c_open new r) dead i b row same
        is_open =
      ground
        (arith, placed c replacement now r i b row is_open, dead.closed i b, dead.closed c.id c)

  Effect-IsClosedFamily :
      {s s' : t.Store} (family_id : Uuid)
      → Effect t d s s'
      → IsClosedFamily family_id s
      → IsClosedFamily family_id s'
  Effect-IsClosedFamily family_id e dead =
      let (b, row, k) = Effect-kept e dead.member dead.known dead.member_row in
      record {
        member = dead.member;
        known = b;
        member_row = row;
        member_family = k.same_family ∙ dead.member_family;
        closed = Effect-closed family_id e dead;
      }

  -- Once every session of a family is closed, no later call opens one in it.
  pub Reach-IsClosedFamily :
      {s s' : t.Store} (family_id : Uuid)
      → IsClosedFamily family_id s
      → Reach t d s s'
      → IsClosedFamily family_id s'
  Reach-IsClosedFamily family_id h here = h
  Reach-IsClosedFamily family_id h (next r st) =
      Effect-IsClosedFamily family_id (Step-Effect t d st) (Reach-IsClosedFamily family_id h r)

  pub Keeps-trans : {a b c : Session} → Keeps a b → Keeps b c → Keeps a c
  Keeps-trans k l = record {
    same_family = l.same_family ∙ k.same_family;
    same_user = l.same_user ∙ k.same_user;
    same_hash = l.same_hash ∙ k.same_hash;
    same_expiry = l.same_expiry ∙ k.same_expiry;
    stays_closed = λ h. l.stays_closed (k.stays_closed h);
  }

  pub Reach-kept :
      {s s' : t.Store}
      → Reach t d s s'
      → (i : Uuid) (a : Session) → t.row s i ≡ some a
      → (b : Session) × (t.row s' i ≡ some b) × Keeps a b
  Reach-kept here i a row = (a, row, Keeps-refl a)
  Reach-kept (next r st) i a row =
      let (b, row_b, kb) = Reach-kept r i a row in
      let (c, row_c, kc) = Effect-kept (Step-Effect t d st) i b row_b in
      (c, row_c, Keeps-trans kb kc)
