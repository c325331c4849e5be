-- ===== src/Sessions.antt =====
-- Persisted sessions: modules/sessions (the service, its repository over TypeORM, the entity) and
-- the ports of modules/auth/application/token-service.port.ts that the service calls.
pub mod Repository
pub mod Service
pub mod Rotation
pub mod Exchange
pub mod Steps
pub mod Families
pub mod Replay
pub mod Revocation
pub mod Start
pub mod Progress
pub mod ListSessions
mod Tests
use gym_saas_be.Prelude.{
  ℕ, ◌≡◌, ◌<◌, Bool, true, false, ◌&&◌, ◌||◌, not, Option, none, some, Text, text_eq, ltb, leb,
  ◌==◌, if◌then◌else◌, is_some, with_default,
}
use gym_saas_be.Store.{Uuid, Time, account, Table, map_row}
use gym_saas_be.Errors.{Exception, ok, err}
use gym_saas_be.Entities.{SessionColumns, Session, Action}

-- The sessions' table has no unique index; its repository also calls `update` and reads
-- soft-deleted rows.
abbrev pub no_index : SessionColumns → SessionColumns → Bool
no_index a b = false

abbrev pub patched : (SessionColumns → SessionColumns) → Uuid → Session → Session
patched f user_id r = record r {
  base = record (r.base) { updated_by = some (account user_id) };
  cols = f r.cols;
}

-- A row after `update`, which also sets the columns of the update's author and time.
abbrev pub after_update : Time → (SessionColumns → SessionColumns) → Uuid → Session → Session
after_update at f user_id r = record r {
  base = record (r.base) { updated_at = some at; updated_by = some (account user_id) };
  cols = f r.cols;
}

pub record SessionTable : Type 1 where
  pub table : Table no_index true
  pub open table use *
  -- `findOne` with `withDeleted: true`.
  pub find_any : (Session → Bool) → Store → Option Session
  -- `update` on all rows that match, which also sets `updatedBy`, and `updatedAt` by the clock of
  -- the database at that moment; and `result.affected`.
  pub clock : Store → Time
  pub update : (Session → Bool) → (SessionColumns → SessionColumns) → Uuid → Store → Store
  pub affected : (Session → Bool) → Store → Option ℕ
  pub find_any_some :
      (p : Session → Bool) (s : Store) (r : Session)
      → find_any p s ≡ some r
      → (row s r.id ≡ some r) × (p r ≡ true)
  pub find_any_none :
      (p : Session → Bool) (s : Store) (i : Uuid) (r : Session)
      → find_any p s ≡ none
      → row s i ≡ some r
      → p r ≡ false
  pub update_row :
      (p : Session → Bool) (f : SessionColumns → SessionColumns) (u : Uuid) (s : Store) (i : Uuid)
      → row (update p f u s) i
        ≡ map_row (λ r. if p r then after_update (clock s) f u r else r) (row s i)
  pub affected_none :
      (p : Session → Bool) (s : Store) (i : Uuid) (r : Session)
      → with_default 0 (affected p s) ≡ 0
      → row s i ≡ some r
      → p r ≡ false
  pub affected_some :
      (p : Session → Bool) (s : Store)
      → 0 < with_default 0 (affected p s)
      → (i : Uuid) × (r : Session) × (row s i ≡ some r) × (p r ≡ true)

pub data SessionRotationResult : Type 0 where
  rotated invalid reused : SessionRotationResult

-- The `where` clauses of the repository.
unfoldable pub has_id : Uuid → Session → Bool
has_id session_id r = r.id == session_id

unfoldable pub is_active_session : Uuid → Uuid → Time → Session → Bool
is_active_session user_id session_id now r =
    r.id == session_id
    && r.cols.user_id == user_id
    && not (is_some r.cols.revoked_at)
    && ltb now r.cols.expires_at

unfoldable pub is_active_of_user : Uuid → Time → Session → Bool
is_active_of_user user_id now r =
    r.cols.user_id == user_id && not (is_some r.cols.revoked_at) && ltb now r.cols.expires_at

unfoldable pub is_open_in_family : Uuid → Session → Bool
is_open_in_family family_id r = r.cols.family_id == family_id && not (is_some r.cols.revoked_at)

unfoldable pub is_open_owned : Uuid → Uuid → Session → Bool
is_open_owned user_id session_id r =
    r.id == session_id && r.cols.user_id == user_id && not (is_some r.cols.revoked_at)

unfoldable pub is_open_other : Uuid → Uuid → Session → Bool
is_open_other user_id excluded_id r =
    r.cols.user_id == user_id && not (r.id == excluded_id) && not (is_some r.cols.revoked_at)

abbrev pub revoke_at : Time → SessionColumns → SessionColumns
revoke_at now c = record c { revoked_at = some now }

-- The tests under which `rotate` answers 'invalid' for a session that it found.
unfoldable pub is_refused : Uuid → Text → Time → Session → Bool
is_refused user_id hash now current =
    not (current.cols.user_id == user_id)
    || not (text_eq current.cols.refresh_token_hash hash)
    || leb current.cols.expires_at now

-- The assignments to `current` and to `replacement`.
unfoldable pub consume : Uuid → Session → Time → Session → Session
consume user_id replacement now current =
    patched
      (λ c. record c {
        revoked_at = some now;
        last_used_at = some now;
        replaced_by_session_id = some replacement.id;
      })
      user_id current

unfoldable pub adopt : Session → Session → Session
adopt current replacement = record replacement {
  cols = record (replacement.cols) { family_id = current.cols.family_id };
}
