-- ===== src/Foundation/Logging.antt =====
-- internal/foundation/logging/logging.go: the configuration of the log from the environment.
pub mod Threshold
use smallworld_be.Prelude.{
  ℕ, zero, suc, ◌+◌, ◌-◌, ◌*◌, ◌%◌, ◌^◌, Bool, true, false, ◌&&◌, ◌||◌, Option, none, some, String,
  ◌==◌, List, [], ◌∷◌, ◌++◌, if◌then◌else◌, ltb,
}
use smallworld_be.Prelude.Int.{ℤ, pos, negsuc, leb_ℤ, ltb_ℤ}
use smallworld_be.Domain.Models.{Duration}
use smallworld_be.Text.{trim_space}
use smallworld_be.Text.Conv.{lower_is, atoi, parse_bool}

-- What FormatText and FormatJSON name.
pub data Format : Type 0 where
  text json : Format

-- slog.Level, the levels that the program uses.
pub data Level : Type 0 where
  debug info warn error : Level

pub record Config : Type 0 where
  pub service_name : String
  pub environment : String
  pub format : Format
  pub level : Level
  pub db_slow_query_threshold : Duration
  pub db_log_all_queries_enabled : Bool

-- A value, or the error "invalid what raw".
pub data Parsed (A : Type 0) : Type 0 where
  valid : A → Parsed A
  invalid : String → String → Parsed A

infixl 10 ◌>>=◌
abbrev pub ◌>>=◌ : {A B : Type 0} → Parsed A → (A → Parsed B) → Parsed B
valid a >>= f = f a
invalid what raw >>= f = invalid what raw

-- os.Getenv: a variable that is not set is empty.
abbrev pub Variables : Type 0
Variables = String → String

unfoldable pub default_format_for_env : String → Format
unfolding trim_space lower_is
default_format_for_env env =
    let e = trim_space env in
    if e == ""
      || lower_is e "local"
      || lower_is e "dev"
      || lower_is e "development"
      || lower_is e "test"
    then text
    else json

unfoldable pub parse_format : String → String → Parsed Format
unfolding trim_space lower_is default_format_for_env
parse_format raw env =
    let r = trim_space raw in
    if r == ""
    then valid (default_format_for_env env)
    else if lower_is r "text"
    then valid text
    else if lower_is r "json"
    then valid json
    else invalid "LOG_FORMAT" raw

unfoldable pub parse_level : String → Parsed Level
unfolding trim_space lower_is
parse_level raw =
    let r = trim_space raw in
    if r == ""
    then valid info
    else if lower_is r "debug"
    then valid debug
    else if lower_is r "info"
    then valid info
    else if lower_is r "warn" || lower_is r "warning"
    then valid warn
    else if lower_is r "error"
    then valid error
    else invalid "LOG_LEVEL" raw

-- The int64 that a number of nanoseconds wraps around to.
unfoldable pub to_int64 : ℕ → ℤ
to_int64 n = let r = n % 2 ^ 64 in if ltb r (2 ^ 63) then pos r else negsuc (2 ^ 64 - r - 1)

-- time.Duration(ms) * time.Millisecond, which is computed on int64.
abbrev threshold_of : String → Option ℤ → Parsed Duration
threshold_of raw none = invalid "DB_LOG_SLOW_QUERY_MS" raw
threshold_of raw (some (negsuc n)) = invalid "DB_LOG_SLOW_QUERY_MS" raw
threshold_of raw (some (pos n)) = valid (to_int64 (n * 1_000_000))

-- -1 stands for a variable that is not set.
unfoldable pub parse_slow_query_threshold : String → Parsed Duration
unfolding trim_space atoi to_int64
parse_slow_query_threshold raw =
    let r = trim_space raw in if r == "" then valid (negsuc 0) else threshold_of raw (atoi r)

abbrev bool_of : String → Option Bool → Parsed Bool
bool_of raw none = invalid "boolean value" raw
bool_of raw (some b) = valid b

unfoldable pub parse_bool_with_default : String → Bool → Parsed Bool
unfolding trim_space parse_bool
parse_bool_with_default raw fallback =
    let r = trim_space raw in if r == "" then valid fallback else bool_of raw (parse_bool r)

-- 250 * time.Millisecond
abbrev pub default_slow_query_threshold : Duration
default_slow_query_threshold = pos 250_000_000

unfoldable pub load_config_from_env : Variables → String → Parsed Config
load_config_from_env getenv service_name =
    let environment = trim_space (getenv "APP_ENV") in
    do
      format ← parse_format (getenv "LOG_FORMAT") environment
      level ← parse_level (getenv "LOG_LEVEL")
      slow ← parse_slow_query_threshold (getenv "DB_LOG_SLOW_QUERY_MS")
      all ← parse_bool_with_default (getenv "DB_LOG_ALL_QUERIES") false
      valid (record {
        service_name = service_name;
        environment = environment;
        format = format;
        level = level;
        db_slow_query_threshold = if leb_ℤ (pos 0) slow then slow else default_slow_query_threshold;
        db_log_all_queries_enabled = all;
      })

-- The logger that slog makes: how it writes, and the fields that it adds to each line.
pub record Logger : Type 0 where
  pub format : Format
  pub level : Level
  pub add_source : Bool
  pub fields : List (String × String)

-- level <= slog.LevelDebug
abbrev is_debug : Level → Bool
is_debug debug = true
is_debug _ = false

abbrev field_unless_empty : String → String → List (String × String)
field_unless_empty name value = if value == "" then [] else (name, value) ∷ []

unfoldable pub new_logger : Config → Logger
new_logger cfg = record {
  format = cfg.format;
  level = cfg.level;
  add_source = is_debug cfg.level;
  fields =
      field_unless_empty "service" cfg.service_name
      ++ field_unless_empty "environment" cfg.environment;
}
