-- ===== src/Postgres/Tracing.antt =====
-- internal/infrastructure/postgres/tracing.go: what the log says of a statement.
use smallworld_be.Prelude.{String, ◌≡◌, sym, ap, ◌∙◌, Bool, ◌&&◌, Option, none, some, if◌then◌else◌}
use smallworld_be.Prelude.Int.{ℤ, pos, ◌-ℤ◌, quot, leb_ℤ, ltb_ℤ}
use smallworld_be.Domain.Models.{Time, Duration}
use smallworld_be.Domain.Errors.{Error}
use smallworld_be.Foundation.Logging.{Level, debug, warn, error}
use smallworld_be.Text.{trim_space}
use smallworld_be.Text.Fields.{fields, join, fields-join, fields-trim_space}

-- A tracer with a logger; its methods do nothing on a nil tracer or one without a logger.
pub record QueryTracer : Type 0 where
  pub slow_query_threshold : Duration
  pub log_all_queries : Bool

pub record QueryTraceContext : Type 0 where
  pub started_at : Time
  pub sql : String

-- A line of the log: the fields that it has. `rows_affected` is left out unless it is positive.
pub record Line : Type 0 where
  pub level : Level
  pub message : String
  pub sql : String
  pub duration_ms : ℤ
  pub rows_affected : Option ℤ
  pub failure : Option Error

unfoldable pub normalize_sql : String → String
unfolding trim_space fields join
normalize_sql sql = join (fields (trim_space sql))

-- The value that the context of a statement holds, if it holds one; `now` is the clock's reading.
unfoldable pub trace_query_start :
    Option QueryTracer → Time → String → Option QueryTraceContext → Option QueryTraceContext
unfolding normalize_sql
trace_query_start none now sql context = context
trace_query_start (some t) now sql context =
    some (record { started_at = now; sql = normalize_sql sql })

-- A statement without a context starts at the reading `now`, and its SQL is empty.
abbrev context_or : Time → Option QueryTraceContext → QueryTraceContext
context_or now none = record { started_at = now; sql = "" }
context_or now (some c) = c

abbrev line_of : QueryTraceContext → Duration → ℤ → Level → String → Option Error → Line
line_of c duration rows level message failure = record {
  level = level;
  message = message;
  sql = c.sql;
  duration_ms = quot duration 1_000_000;
  rows_affected = if ltb_ℤ (pos 0) rows then some rows else none;
  failure = failure;
}

-- The switch on the outcome.
abbrev line_for : QueryTracer → QueryTraceContext → Duration → ℤ → Option Error → Option Line
line_for t c duration rows (some e) =
    some (line_of c duration rows error "postgres query failed" (some e))
line_for t c duration rows none =
    if t.log_all_queries
    then some (line_of c duration rows debug "postgres query completed" none)
    else if ltb_ℤ (pos 0) t.slow_query_threshold && leb_ℤ t.slow_query_threshold duration
    then some (line_of c duration rows warn "postgres query slow" none)
    else none

-- `now` is read where the context holds no time, `end` for time.Since. A statement affects `rows`
-- rows.
unfoldable pub trace_query_end :
    Option QueryTracer
    → Option QueryTraceContext
    → (now end : Time) → (rows : ℤ) → Option Error
    → Option Line
unfolding ◌-ℤ◌ quot
trace_query_end none context now end rows failure = none
trace_query_end (some t) context now end rows failure =
    let c = context_or now context in line_for t c (end -ℤ c.started_at) rows failure

-- The text that is logged for a statement has the statement's words in their order, however they
-- were spaced, and does not change when it is normalized again.
pub normalize_sql-fields :
    (sql : String)
    → (fields (normalize_sql sql) ≡ fields sql)
      × (normalize_sql (normalize_sql sql) ≡ normalize_sql sql)
unfolding normalize_sql
normalize_sql-fields sql =
    let words : fields (normalize_sql sql) ≡ fields sql =
      fields-join (trim_space sql) ∙ fields-trim_space sql in
    (words, ap join (fields-trim_space (normalize_sql sql) ∙ words ∙ sym (fields-trim_space sql)))
