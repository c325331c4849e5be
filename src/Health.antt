-- ===== src/Health.antt =====
-- modules/health/health.service.ts: the report on the server and its database.
use gym_saas_be.Prelude.{ℕ, ◌/◌, Option, Text, codes, with_default}
use gym_saas_be.Store.{Time}
use gym_saas_be.Errors.{Result, ok, err}

pub data Availability : Type 0 where
  up down : Availability

-- `'ok'` and `'error'`.
pub data Condition : Type 0 where
  healthy failing : Condition

pub record HealthStatus : Type 0 where
  pub status : Condition
  pub environment : Text
  pub uptime : ℕ
  pub timestamp : Time
  pub database : Availability

-- From the result of the query.
unfoldable pub ping_database : Result (Unit {0}) → Availability
ping_database (ok u) = up
ping_database (err x) = down

abbrev pub condition_of : Availability → Condition
condition_of up = healthy
condition_of down = failing

-- With the time that the process has been up, in milliseconds.
unfoldable pub check : Result (Unit {0}) → Option Text → ℕ → Time → HealthStatus
unfolding ping_database
check query node_env uptime_ms now = record {
  status = condition_of (ping_database query);
  environment = with_default (codes "development") node_env;
  uptime = uptime_ms / 1000;
  timestamp = now;
  database = ping_database query;
}
