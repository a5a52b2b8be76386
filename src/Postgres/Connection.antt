-- ===== src/Postgres/Connection.antt =====
-- internal/infrastructure/postgres/postgres.go: how the pool of connections is opened. The pool is
-- pgx's: parsing the URL, opening and the first ping are arguments, which fail
-- or succeed.
use smallworld_be.Prelude.{String, ◌==◌, Bool, Option, none, some, if◌then◌else◌}
use smallworld_be.Prelude.Int.{pos, eqb_ℤ}
use smallworld_be.Domain.Models.{Duration}
use smallworld_be.Domain.Errors.{Result, ok, err, Error, external, wrap}
use smallworld_be.Postgres.Tracing.{QueryTracer}

pub record PoolConfig : Type 0 where
  pub max_conn_idle_time : Duration
  pub max_conn_lifetime : Duration
  pub health_check_period : Duration
  pub tracer : Option QueryTracer

pub record OpenOptions : Type 0 where
  pub has_logger : Bool
  pub slow_query_threshold : Duration
  pub log_all_queries : Bool

-- What pgxpool does with a URL and with a configuration, and the errors.
pub record PgxPool : Type 0 where
  pub parse_config : String → Result PoolConfig
  pub new_with_config : PoolConfig → Option Error
  pub ping : PoolConfig → Option Error

-- if d == 0 { d = fallback }
abbrev unless_zero : Duration → Duration → Duration
unless_zero d fallback = if eqb_ℤ d (pos 0) then fallback else d

unfoldable pub new_query_tracer : OpenOptions → QueryTracer
new_query_tracer o = record {
  slow_query_threshold = o.slow_query_threshold;
  log_all_queries = o.log_all_queries;
}

-- 15 minutes, an hour and 30 seconds where the URL says nothing.
unfoldable pub with_defaults : OpenOptions → PoolConfig → PoolConfig
unfolding new_query_tracer
with_defaults o c = record {
  max_conn_idle_time = unless_zero c.max_conn_idle_time (pos 900_000_000_000);
  max_conn_lifetime = unless_zero c.max_conn_lifetime (pos 3_600_000_000_000);
  health_check_period = unless_zero c.health_check_period (pos 30_000_000_000);
  tracer = if o.has_logger then some (new_query_tracer o) else c.tracer;
}

abbrev or_error : Option Error → String → Result PoolConfig → Result PoolConfig
or_error none what next = next
or_error (some e) what next = err (wrap what e)

abbrev pub open_parsed : PgxPool → OpenOptions → Result PoolConfig → Result PoolConfig
open_parsed p o (err e) = err (wrap "parse postgres config" e)
open_parsed p o (ok c) =
    let config = with_defaults o c in
    or_error (p.new_with_config config) "open postgres pool"
      (or_error (p.ping config) "ping postgres" (ok config))

-- The configuration of the pool that is returned.
unfoldable pub open_pool : PgxPool → String → OpenOptions → Result PoolConfig
unfolding with_defaults
open_pool p url o =
    if url == ""
    then err (external "database url is required")
    else open_parsed p o (p.parse_config url)
