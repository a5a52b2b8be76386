-- ===== src/Tests/Platform.antt =====
-- Ids, the configuration of the log, statements in the log, and the start of the program.
use smallworld_be.Prelude.{
  String, ◌==◌, ◌≡◌, refl, ◌^◌, ◌-◌, none, true, false, List, [], ◌∷◌, arith, if◌then◌else◌,
}
use smallworld_be.Prelude.Int.{pos}
use smallworld_be.Domain.Models.{Time}
use smallworld_be.Domain.Errors.{ok, err, external}
use smallworld_be.Text.Decimal.{decimal, signed_decimal}
use smallworld_be.Foundation.Ids.{AtomicIdGenerator, new, new_ids}
use smallworld_be.Foundation.Ids.Distinct.{AllDiffer, new_ids-AllDiffer}
use smallworld_be.Foundation.Logging
use smallworld_be.Foundation.Logging.{
  Config, Variables, load_config_from_env, valid, parse_format, parse_level,
  parse_slow_query_threshold, parse_bool_with_default,
}
use smallworld_be.Foundation.Logging.Threshold.{load_config_from_env-threshold, without_threshold}
use smallworld_be.Postgres.Tracing.{normalize_sql}
use smallworld_be.Postgres.Connection.{OpenOptions, with_defaults, open_pool}
use smallworld_be.Redis.Connection.{open_client}
use smallworld_be.Startup.{
  verify_token, firebase_config, Machine, Running, start_up, running, new_routing_provider,
  new_auth_verifier, new_firebase_verifier, firebase_options, getenv_or,
}
use smallworld_be.Routing.{haversine_provider, new_haversine_provider}
use smallworld_be.Startup.Guarded.{Guarded, start_up-Guarded}
use smallworld_be.Tests.Fixtures.{floats}

abbrev old_generator : AtomicIdGenerator
old_generator = record { seq = 2 ^ 64 - 2 }

abbrev calls : List (String × Time)
calls = ("ds", pos 7) ∷ ("offer", pos 7) ∷ []

-- The counter wraps around after the first id.
wrapped : new_ids old_generator calls ≡ "ds_7_18446744073709551615" ∷ "offer_7_0" ∷ []
unfolding new_ids new signed_decimal decimal
wrapped = refl

new_ids-AllDiffer_example : AllDiffer (new_ids old_generator calls)
new_ids-AllDiffer_example = new_ids-AllDiffer old_generator calls (omega arith)

variables : Variables
variables name =
    if name == "DB_LOG_SLOW_QUERY_MS"
    then "9223372036855"
    else if name == "LOG_FORMAT"
    then " JSON "
    else if name == "FIREBASE_PROJECT_ID"
    then "project"
    else if name == "FIREBASE_AUTH_EMULATOR_HOST"
    then "localhost:9099"
    else ""

abbrev config : Config
config = record {
  service_name = "smallworld-api";
  environment = "";
  format = Logging.json;
  level = Logging.info;
  db_slow_query_threshold = pos 250_000_000;
  db_log_all_queries_enabled = false;
}

loaded : load_config_from_env variables "smallworld-api" ≡ valid config
unfolding variables load_config_from_env parse_format parse_level parse_slow_query_threshold
    parse_bool_with_default
loaded = refl

load_config_from_env-threshold_example :
    load_config_from_env variables "smallworld-api" ≡ valid config
unfolding variables decimal without_threshold load_config_from_env parse_format parse_level
    parse_slow_query_threshold parse_bool_with_default
load_config_from_env-threshold_example =
    load_config_from_env-threshold variables "smallworld-api" 9_223_372_036_855 refl (omega arith)

statement : normalize_sql "  SELECT id,\n\t\tname  FROM users " ≡ "SELECT id, name FROM users"
unfolding normalize_sql
statement = refl

machine : Machine
unfolding variables
machine = record {
  getenv = variables;
  pgx = record {
    parse_config = λ url. ok (record {
      max_conn_idle_time = pos 0;
      max_conn_lifetime = pos 0;
      health_check_period = pos 0;
      tracer = none;
    });
    new_with_config = λ c. none;
    ping = λ c. none;
  };
  redis_url_failure = λ url. none;
  redis_ping_failure = λ url. none;
  new_app = λ o. none;
  new_auth_client = λ o. none;
  verify_id_token = λ o token. ok token;
  seed_failure = none;
  google = record {
    marshal = λ r. ok "";
    new_request = λ url. none;
    send = λ r. err (external "no network");
    unmarshal = λ s. ok [];
    parse_duration = λ s. ok (pos 0);
  };
  floats = floats;
}

abbrev open_options : OpenOptions
open_options = record {
  has_logger = true;
  slow_query_threshold = pos 250_000_000;
  log_all_queries = false;
}

served : Running
unfolding variables running new_haversine_provider haversine_provider with_defaults firebase_options
    verify_token machine
served =
    running variables config
      (haversine_provider floats (new_haversine_provider floats), "haversine fallback")
      (with_defaults open_options (record {
        max_conn_idle_time = pos 0;
        max_conn_lifetime = pos 0;
        health_check_period = pos 0;
        tracer = none;
      }))
      (verify_token machine (firebase_options (firebase_config variables))) false

started : start_up machine ≡ ok served
unfolding served machine variables start_up load_config_from_env parse_format parse_level
    parse_slow_query_threshold parse_bool_with_default new_routing_provider open_pool open_client
    new_auth_verifier new_firebase_verifier getenv_or
started = refl

start_up-Guarded_example : Guarded machine served
start_up-Guarded_example = start_up-Guarded machine served started
