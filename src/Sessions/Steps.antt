-- ===== src/Sessions/Steps.antt =====
-- Sessions over time: any sequence of the service's calls, and what each may do to the rows.
use gym_saas_be.Prelude.{
  ◌≡◌, refl, ◌≢◌, inl, inr, Bool, Option, none, some, Text, ◌==◌, if◌then◌else◌, Bool-cases,
  Option-cases, sym, subst,
}
use gym_saas_be.Store.{Uuid, Time, map_row}
use gym_saas_be.Errors.{Result, ok, err}
use gym_saas_be.Entities.{Transactions, Session}
use gym_saas_be.Sessions.{
  SessionTable, SessionRotationResult, rotated, invalid, reused, is_open_in_family, is_open_owned,
  is_open_other, revoke_at, after_update,
}
use gym_saas_be.Sessions.Repository.{save, rotate, revoke_owned, revoke_all_except}
use gym_saas_be.Sessions.Exchange.{IsReplaced, save_some, close_family, IsFamilyRevoked-rows}
use gym_saas_be.Sessions.Rotation.{Outcome, AfterRotate, rotate_lem}

-- A row later on: its family, owner, token hash and expiry stay, and once closed it stays closed.
pub record Keeps (a b : Session) : Type 0 where
  pub same_family : b.cols.family_id ≡ a.cols.family_id
  pub same_user : b.cols.user_id ≡ a.cols.user_id
  pub same_hash : b.cols.refresh_token_hash ≡ a.cols.refresh_token_hash
  pub same_expiry : b.cols.expires_at ≡ a.cols.expires_at
  pub stays_closed : a.cols.revoked_at ≢ none → b.cols.revoked_at ≢ none

pub Keeps-refl : (a : Session) → Keeps a a
Keeps-refl a = record {
  same_family = refl;
  same_user = refl;
  same_hash = refl;
  same_expiry = refl;
  stays_closed = λ h. h;
}

module _ (t : SessionTable) (d : Transactions t.Store) where
  -- One call on the table. Generated ids are new, and so is the family of a session that starts.
  pub data Step : t.Store → t.Store → Type 0 where
    starts :
        (session r : Session) (s s' : t.Store)
        → session.id ≢ 0
        → t.row s session.id ≡ none
        → ((i : Uuid) (a : Session)
            → t.row s i ≡ some a
            → a.cols.family_id ≢ session.cols.family_id)
        → save t session s ≡ (ok r, s')
        → Step s s'
    rotates :
        (current_id user_id : Uuid) (hash : Text) (replacement : Session) (now : Time)
        (result : Result SessionRotationResult) (s s' : t.Store)
        → current_id ≢ 0
        → replacement.id ≢ 0
        → replacement.id ≢ current_id
        → t.row s replacement.id ≡ none
        → rotate t d current_id user_id hash replacement now s ≡ (result, s')
        → Step s s'
    revokes :
        (user_id session_id : Uuid) (now : Time) (s s' : t.Store)
        → (revoke_owned t user_id session_id now s).1 ≡ s'
        → Step s s'
    revokes_others :
        (user_id excluded_id : Uuid) (now : Time) (s s' : t.Store)
        → (revoke_all_except t user_id excluded_id now s).1 ≡ s'
        → Step s s'

  pub data Reach (s : t.Store) : t.Store → Type 0 where
    here : Reach s s
    next : {s1 s2 : t.Store} → Reach s s1 → Step s1 s2 → Reach s s2

  -- What a call may do to the rows: change some in a way that `Keeps` allows, open a family, or
  -- exchange an open session for a new one.
  pub data Effect (s s' : t.Store) : Type 0 where
    quiet :
        (f : Session → Session)
        → ((a : Session) → Keeps a (f a))
        → ((i : Uuid) → t.row s' i ≡ map_row f (t.row s i))
        → Effect s s'
    opens :
        (r : Session)
        → t.row s r.id ≡ none
        → ((i : Uuid) (a : Session) → t.row s i ≡ some a → a.cols.family_id ≢ r.cols.family_id)
        → ((i : Uuid) → t.row s' i ≡ (if i == r.id then some r else t.row s i))
        → Effect s s'
    exchanges :
        (c replacement : Session) (now : Time)
        → t.row s c.id ≡ some c
        → c.cols.revoked_at ≡ none
        → t.row s replacement.id ≡ none
        → IsReplaced t s s' c replacement now
        → Effect s s'

  map_row_id : (o : Option Session) → o ≡ map_row (λ r. r) o
  map_row_id none = refl
  map_row_id (some r) = refl

  Keeps-close :
      (at : Time) (p : Session → Bool) (u : Uuid) (now : Time) (a : Session)
      → Keeps a (if p a then after_update at (revoke_at now) u a else a)
  Keeps-close at p u now a = elim (Bool-cases (p a)) [
    | inl e ↦ rw e (record {
      same_family = refl;
      same_user = refl;
      same_hash = refl;
      same_expiry = refl;
      stays_closed = λ h k. cc;
    })
    | inr e ↦ rw e (Keeps-refl a)
  ]

  at_its_id : (s : t.Store) (i : Uuid) (c : Session) → t.row s i ≡ some c → t.row s c.id ≡ some c
  at_its_id s i c e = subst (λ (j : Uuid). t.row s j ≡ some c) (sym (t.row_id s i c e)) e

  Outcome-Effect :
      (s s' : t.Store) (current_id user_id : Uuid) (hash : Text) (replacement : Session)
      (now : Time) (result : SessionRotationResult)
      → t.row s replacement.id ≡ none
      → Outcome t s current_id user_id hash replacement now result s'
      → Effect s s'
  Outcome-Effect s s' current_id user_id hash replacement now rotated new (c, p, is_open, r) =
      exchanges c replacement now (at_its_id s current_id c p.found) is_open new r
  Outcome-Effect s s' current_id user_id hash replacement now reused new (c, p, closed, f) =
      quiet (close_family t (t.clock s) c.cols.family_id user_id now)
        (Keeps-close (t.clock s) (is_open_in_family c.cols.family_id) user_id now)
        (IsFamilyRevoked-rows t s s' c.cols.family_id user_id now f)
  Outcome-Effect s s' current_id user_id hash replacement now invalid new (none_presented, same) =
      quiet (λ r. r) Keeps-refl (λ i. rw same (map_row_id (t.row s i)))

  after-Effect :
      (s s' : t.Store) (current_id user_id : Uuid) (hash : Text) (replacement : Session)
      (now : Time) (result : Result SessionRotationResult)
      → t.row s replacement.id ≡ none
      → AfterRotate t s current_id user_id hash replacement now result s'
      → Effect s s'
  after-Effect s s' current_id user_id hash replacement now (ok result) new o =
      Outcome-Effect s s' current_id user_id hash replacement now result new o
  after-Effect s s' current_id user_id hash replacement now (err e) new same =
      quiet (λ r. r) Keeps-refl (λ i. rw same (map_row_id (t.row s i)))

  pub Step-Effect : {s s' : t.Store} → Step s s' → Effect s s'
  unfolding revoke_owned revoke_all_except
  Step-Effect (starts session r s s' known unused new e) =
      let q = save_some t session s s' r e in
      let i : r.id ≡ session.id = t.save_id session r s s' q known in
      let cols = t.save_cols session r s s' q in
      opens r (rw i unused) (λ j a row. rw cols (new j a row)) (λ j. t.save_row session r s s' j q)
  Step-Effect (rotates current_id user_id hash replacement now result s s' hc hr hne new e) =
      after-Effect s s' current_id user_id hash replacement now result new (
        subst
          (λ (o : Result SessionRotationResult × t.Store).
            AfterRotate t s current_id user_id hash replacement now o.0 o.1)
          e (rotate_lem t d s current_id user_id hash replacement now hc hr hne))
  Step-Effect (revokes user_id session_id now s s' e) =
      quiet _ (Keeps-close (t.clock s) (is_open_owned user_id session_id) user_id now)
        (λ i. rw (← e) (t.update_row _ _ user_id s i))
  Step-Effect (revokes_others user_id excluded_id now s s' e) =
      quiet _ (Keeps-close (t.clock s) (is_open_other user_id excluded_id) user_id now)
        (λ i. rw (← e) (t.update_row _ _ user_id s i))

  pub came_from :
      (f : Session → Session) (o : Option Session) (b : Session)
      → map_row f o ≡ some b
      → (a : Session) × (o ≡ some a) × (f a ≡ b)
  came_from f none b e = cc
  came_from f (some a) b e = (a, refl, cc)

  pub Keeps-open : {a b : Session} → Keeps a b → b.cols.revoked_at ≡ none → a.cols.revoked_at ≡ none
  Keeps-open {a} k is_open = elim (Option-cases a.cols.revoked_at) [
    | inl e ↦ e
    | inr (x, e) ↦ absurd (k.stays_closed (λ n. cc) is_open)
  ]
