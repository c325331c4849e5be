-- ===== src/Sessions/Tests.antt =====
-- The session theorems at concrete data, and runs of the code.
use gym_saas_be.Prelude.{◌≡◌, refl, ◌≢◌, ◌↔◌, true, false, none, some, [], ◌∷◌, arith, text_eq}
use gym_saas_be.Store.{Uuid, Time}
use gym_saas_be.Store.ListTable.{row_in}
use gym_saas_be.Errors.{ok}
use gym_saas_be.Entities.{Session, local}
use gym_saas_be.Users.{UserPublicProfile}
use gym_saas_be.Sessions.{
  rotated, reused, has_id, is_active_session, is_open_in_family, is_open_owned, is_open_other,
  is_refused, consume, adopt,
}
use gym_saas_be.Sessions.Repository.{save, rotate, is_active, revoke_owned, revoke_all_except}
use gym_saas_be.Sessions.Service.{
  Keys, SessionMetadata, start, rotate_session, build_session, with_hash,
}
use gym_saas_be.Sessions.ListSessions.{list_sessions, run_transaction, list_sessions_run}
use gym_saas_be.Sessions.Rotation.{AfterRotate, rotate_lem}
use gym_saas_be.Sessions.Steps.{Step, starts, rotates, revokes, here, next}
use gym_saas_be.Sessions.Families.{IsSingle, IsClosedFamily, Reach-IsSingle, Reach-IsClosedFamily}
use gym_saas_be.Sessions.Replay.{rotate_replay}
use gym_saas_be.Sessions.Revocation.{
  revoke_owned_lem, revoke_all_except_lem, is_active_iff, IsActive,
}

-- A digest and tokens that are easy to follow: the digest is the token, the token is the session
-- id.
abbrev keys : Keys
keys = record {
  issue_tokens = λ p. record { access_token = p.sub ∷ []; refresh_token = p.session_id ∷ [] };
  digest = λ token. token;
  refresh_ttl_ms = 100;
}

abbrev ann : UserPublicProfile
ann = record { id = 7; email = []; name = []; provider = local; created_at = 0; avatar_url = none }

abbrev plain : SessionMetadata
plain = record { user_agent = none; ip_address = none }

abbrev empty : list_sessions.Store
empty = ([], tt)

-- The session that Ann starts at time 10, and one that replaces it at time 20.
first_session : Session
unfolding build_session
first_session = with_hash (21 ∷ []) (build_session keys 10 21 7 31 plain)

second_session : Session
unfolding build_session
second_session = with_hash (22 ∷ []) (build_session keys 20 22 7 0 plain)

third_session : Session
unfolding build_session
third_session = with_hash (23 ∷ []) (build_session keys 30 23 7 0 plain)

started : list_sessions.Store
unfolding start list_sessions_run
started = (start list_sessions run_transaction keys 10 21 31 ann plain empty).1

exchanged : list_sessions.Store
unfolding rotate list_sessions_run
exchanged = (rotate list_sessions run_transaction 21 7 (21 ∷ []) second_session 20 started).1

replayed : list_sessions.Store
unfolding rotate list_sessions_run
replayed = (rotate list_sessions run_transaction 21 7 (21 ∷ []) third_session 30 exchanged).1

-- What the tests compute with.
runs : Unit {0}
unfolding first_session second_session third_session started exchanged replayed start rotate_session
    is_active rotate revoke_owned revoke_all_except has_id is_active_session is_open_in_family
    is_open_owned is_open_other is_refused consume adopt text_eq list_sessions_run
runs = tt

start_is_active : is_active list_sessions 7 21 50 started ≡ true
unfolding runs
start_is_active = refl

exchange_moves :
    (is_active list_sessions 7 21 50 exchanged ≡ false)
    × (is_active list_sessions 7 22 50 exchanged ≡ true)
unfolding runs
exchange_moves = (refl, refl)

replay_is_reuse :
    (rotate list_sessions run_transaction 21 7 (21 ∷ []) third_session 30 exchanged).0 ≡ ok reused
unfolding runs
replay_is_reuse = refl

rotate_lem_example :
    AfterRotate list_sessions started 21 7
      (21 ∷ [])
      second_session
      20
      (rotate list_sessions run_transaction 21 7 (21 ∷ []) second_session 20 started).0
      (rotate list_sessions run_transaction 21 7 (21 ∷ []) second_session 20 started).1
unfolding second_session
rotate_lem_example =
    rotate_lem list_sessions run_transaction started 21 7 (21 ∷ []) second_session 20 (omega arith)
      (omega arith) (omega arith)

starting : Step list_sessions run_transaction empty started
unfolding runs save
starting =
    starts first_session first_session empty started (omega arith) refl (λ i a e. absurd (cc)) refl

exchanging : Step list_sessions run_transaction started exchanged
unfolding runs
exchanging =
    rotates 21 7 (21 ∷ []) second_session 20 (ok rotated) started exchanged (omega arith)
      (omega arith) (omega arith) refl refl

empty-IsSingle : IsSingle list_sessions run_transaction empty
unfolding row_in
empty-IsSingle i j a b ra rb same oa ob = cc

-- The session that is open after the exchange.
replacing : Session
unfolding second_session
replacing = second_session

Reach-IsSingle_example : replacing.id ≡ replacing.id
unfolding runs replacing
Reach-IsSingle_example =
    Reach-IsSingle list_sessions run_transaction empty-IsSingle
      (next (next here starting) exchanging) replacing.id replacing.id
      (adopt first_session second_session) (adopt first_session second_session) refl refl refl refl
      refl

rotate_replay_example :
    ((rotate list_sessions run_transaction 21 7 (21 ∷ []) third_session 30 exchanged).0 ≡ ok reused)
    × IsClosedFamily list_sessions run_transaction 31
        (rotate list_sessions run_transaction 21 7 (21 ∷ []) third_session 30 exchanged).1
unfolding runs
rotate_replay_example =
    rotate_replay list_sessions run_transaction started exchanged exchanged 21 7 (21 ∷ [])
      second_session third_session 20 30 first_session (omega arith) (omega arith) (omega arith)
      refl refl here (omega arith)

replayed-IsClosedFamily : IsClosedFamily list_sessions run_transaction 31 replayed
unfolding runs
replayed-IsClosedFamily =
    (rotate_replay list_sessions run_transaction started exchanged exchanged 21 7 (21 ∷ [])
      second_session third_session 20 30 first_session (omega arith) (omega arith) (omega arith)
      refl refl here (omega arith)).1

Reach-IsClosedFamily_example :
    IsClosedFamily list_sessions run_transaction 31 (revoke_owned list_sessions 7 22 40 replayed).1
Reach-IsClosedFamily_example =
    Reach-IsClosedFamily list_sessions run_transaction 31 replayed-IsClosedFamily
      (next here (revokes 7 22 40 replayed (revoke_owned list_sessions 7 22 40 replayed).1 refl))

is_active_iff_example :
    (is_active list_sessions 7 21 50 started ≡ true) ↔ IsActive list_sessions started 7 21 50
is_active_iff_example = is_active_iff list_sessions started 7 21 50

revoke_owned_lem_example :
    ((true ≡ true) ↔ (
      (a : Session) × (list_sessions.row started 21 ≡ some a)
      × (a.cols.user_id ≡ 7)
      × (a.cols.revoked_at ≡ none)))
    × (is_active list_sessions 7 21 60 (revoke_owned list_sessions 7 21 50 started).1 ≡ false)
    × ((a : Session)
        → list_sessions.row started 21 ≡ some a
        → a.cols.user_id ≢ 7
        → list_sessions.row (revoke_owned list_sessions 7 21 50 started).1 21 ≡ some a)
    × ((i : Uuid)
        → i ≢ 21
        → list_sessions.row (revoke_owned list_sessions 7 21 50 started).1 i
          ≡ list_sessions.row started i)
unfolding runs
revoke_owned_lem_example = revoke_owned_lem list_sessions 7 21 50 60 started

revoke_all_except_lem_example :
    ((i : Uuid) (now' : Time)
      → is_active list_sessions 7 i now' (revoke_all_except list_sessions 7 22 50 exchanged).1
        ≡ true
      → i ≡ 22)
    × (list_sessions.row (revoke_all_except list_sessions 7 22 50 exchanged).1 22
        ≡ list_sessions.row exchanged 22)
    × ((i : Uuid) (a : Session)
        → list_sessions.row exchanged i ≡ some a
        → a.cols.user_id ≢ 7
        → list_sessions.row (revoke_all_except list_sessions 7 22 50 exchanged).1 i ≡ some a)
revoke_all_except_lem_example = revoke_all_except_lem list_sessions 7 22 50 exchanged
