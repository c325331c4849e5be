-- ===== src/Sessions/Service.antt =====
-- modules/sessions/application/session.service.ts. The generated ids, the signed tokens and the
-- SHA-256 digest come from libraries and are arguments; a call reads the clock once.
use gym_saas_be.Prelude.{
  ℕ, ◌+◌, Bool, Option, none, some, List, [], map, Text, codes, ◌==◌, if◌then◌else◌, take,
}
use mathlib.Core.Option
use gym_saas_be.Store.{Uuid, Time, account}
use gym_saas_be.Errors.{Exception, unauthorized}
use gym_saas_be.Entities.{Transactions, Session, Action, pure, throw, ◌>>=◌, ◌>>◌}
use gym_saas_be.Users.{UserPublicProfile}
use gym_saas_be.Sessions.{SessionTable, SessionRotationResult, rotated, invalid, reused}
use gym_saas_be.Sessions.Repository.{save, find_active_by_user, rotate}

pub record SessionMetadata : Type 0 where
  pub user_agent : Option Text
  pub ip_address : Option Text

pub record SessionView : Type 0 where
  pub id : Uuid
  pub user_agent : Option Text
  pub ip_address : Option Text
  pub created_at : Time
  pub last_used_at : Option Time
  pub expires_at : Time
  pub current : Bool

pub record TokenPayload : Type 0 where
  pub sub : Uuid
  pub email : Text
  pub session_id : Uuid

pub record TokenPair : Type 0 where
  pub access_token : Text
  pub refresh_token : Text

-- What the service takes from outside: the signer of the token service, SHA-256, and the lifetime
-- of a refresh token that `JWT_REFRESH_EXPIRES_IN` sets.
pub record Keys : Type 0 where
  pub issue_tokens : TokenPayload → TokenPair
  pub digest : Text → Text
  pub refresh_ttl_ms : ℕ

-- `buildSession(userId, familyId, metadata)` with the generated id first; an empty family id means
-- that the session opens a family of its own.
unfoldable pub build_session : Keys → Time → Uuid → Uuid → Uuid → SessionMetadata → Session
build_session k now id user_id family_id metadata = record {
  base = record {
    id = id;
    created_at = now;
    updated_at = none;
    deleted_at = none;
    created_by = some (account user_id);
    updated_by = some (account user_id);
  };
  cols = record {
    user_id = user_id;
    family_id = if family_id == 0 then id else family_id;
    refresh_token_hash = [];
    expires_at = now + k.refresh_ttl_ms;
    last_used_at = none;
    revoked_at = none;
    replaced_by_session_id = none;
    user_agent = Option.map (take 512) metadata.user_agent;
    ip_address = Option.map (take 64) metadata.ip_address;
  };
}

abbrev pub with_hash : Text → Session → Session
with_hash h session = record session { cols = record (session.cols) { refresh_token_hash = h } }

abbrev payload_of : UserPublicProfile → Session → TokenPayload
payload_of user session = record { sub = user.id; email = user.email; session_id = session.id }

unfoldable pub view : Uuid → Session → SessionView
view current_id session = record {
  id = session.id;
  user_agent = session.cols.user_agent;
  ip_address = session.cols.ip_address;
  created_at = session.created_at;
  last_used_at = session.cols.last_used_at;
  expires_at = session.cols.expires_at;
  current = session.id == current_id;
}

abbrev pub refusal : SessionRotationResult → Exception
refusal reused = unauthorized (codes "Refresh token reuse detected; session family revoked")
refusal _ = unauthorized (codes "Invalid refresh token")

unfoldable pub conclude : {S : Type 0} → SessionRotationResult → TokenPair → Action S TokenPair
conclude rotated tokens = pure tokens
conclude invalid tokens = throw (refusal invalid)
conclude reused tokens = throw (refusal reused)

module _ (t : SessionTable) (d : Transactions t.Store) (k : Keys) where
  unfoldable pub start :
      Time → (id family_id : Uuid) → UserPublicProfile → SessionMetadata → Action t.Store TokenPair
  unfolding build_session save
  start now id family_id user metadata =
      let session = build_session k now id user.id family_id metadata in
      let tokens = k.issue_tokens (payload_of user session) in
      save t (with_hash (k.digest tokens.refresh_token) session) >> pure tokens

  unfoldable pub rotate_session :
      Time
      → (id : Uuid) → Text
      → TokenPayload
      → UserPublicProfile
      → SessionMetadata
      → Action t.Store TokenPair
  unfolding build_session conclude
  rotate_session now id refresh_token payload user metadata =
      let replacement = build_session k now id user.id 0 metadata in
      let tokens = k.issue_tokens (payload_of user replacement) in
      let stored = with_hash (k.digest tokens.refresh_token) replacement in
      rotate t d payload.session_id user.id (k.digest refresh_token) stored now >>= λ result.
      conclude result tokens

  unfoldable pub list_sessions : Time → Uuid → Uuid → t.Store → List SessionView
  unfolding find_active_by_user view
  list_sessions now user_id current_id s =
      map (view current_id) (find_active_by_user t user_id now s)
