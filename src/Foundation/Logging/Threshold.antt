-- ===== src/Foundation/Logging/Threshold.antt =====
-- The threshold of slow queries, over the numbers of milliseconds that the variable can spell.
use smallworld_be.Prelude.{
  ℕ, ◌*◌, ◌≤◌, ◌<◌, ◌≡◌, refl, ap, ◌∙◌, true, false, String, ◌==◌, arith, if◌then◌else◌, leb,
}
use smallworld_be.Prelude.Int.{pos, leb_ℤ}
use native.Mathlib.Decide.{dec_le}
use smallworld_be.Domain.Models.{Duration}
use smallworld_be.Text.Decimal.{decimal}
use smallworld_be.Text.Digits.{trim_space-decimal, atoi-decimal, decimal-not_empty}
use smallworld_be.Foundation.Logging.{
  Variables, Config, Parsed, valid, invalid, parse_slow_query_threshold, to_int64,
  default_slow_query_threshold, load_config_from_env,
}

parse-decimal :
    (n : ℕ)
    → n ≤ 18_446_744_073_709
    → parse_slow_query_threshold (decimal n) ≡ valid (to_int64 (n * 1_000_000))
unfolding parse_slow_query_threshold
parse-decimal n h =
    rw (trim_space-decimal n, decimal-not_empty n, atoi-decimal n (omega arith)) refl

-- The variables with no threshold of slow queries set.
unfoldable pub without_threshold : Variables → Variables
without_threshold getenv name = if name == "DB_LOG_SLOW_QUERY_MS" then "" else getenv name

-- A configuration, or its error, with another threshold.
abbrev pub with_threshold : Duration → Parsed Config → Parsed Config
with_threshold t (valid c) = valid (record c { db_slow_query_threshold = t })
with_threshold t (invalid what raw) = invalid what raw

loaded-threshold :
    (getenv : Variables) (name : String) (t : Duration)
    → parse_slow_query_threshold (getenv "DB_LOG_SLOW_QUERY_MS") ≡ valid t
    → load_config_from_env getenv name
      ≡ with_threshold
          (if leb_ℤ (pos 0) t then t else default_slow_query_threshold)
          (load_config_from_env (without_threshold getenv) name)
unfolding load_config_from_env without_threshold parse_slow_query_threshold
loaded-threshold getenv name t e = ground (arith, e)

fits : (n : ℕ) → n ≤ 9_223_372_036_854 → to_int64 (n * 1_000_000) ≡ pos (n * 1_000_000)
unfolding to_int64
fits n h = ground arith

wraps :
    (n : ℕ)
    → 9_223_372_036_854 < n
    → n ≤ 18_446_744_073_709
    → leb_ℤ (pos 0) (to_int64 (n * 1_000_000)) ≡ false
unfolding to_int64
wraps n h k = ground arith

-- With a number of milliseconds up to 9223372036854 in the variable, the program's configuration is
-- the one without the variable, errors of the other variables included, but with that number as the
-- threshold of slow queries. From there to 18446744073709 the number is no error and is lost: the
-- configuration is the one without the variable, whose threshold is the default of 250 ms.
pub load_config_from_env-threshold :
    (getenv : Variables) (name : String) (n : ℕ)
    → getenv "DB_LOG_SLOW_QUERY_MS" ≡ decimal n
    → n ≤ 18_446_744_073_709
    → load_config_from_env getenv name
      ≡ with_threshold
          (if leb n 9_223_372_036_854 then pos (n * 1_000_000) else pos 250_000_000)
          (load_config_from_env (without_threshold getenv) name)
load_config_from_env-threshold getenv name n e h =
    let t =
      loaded-threshold getenv name (to_int64 (n * 1_000_000))
        (ap parse_slow_query_threshold e ∙ parse-decimal n h) in
    elim (dec_le n 9_223_372_036_854) [
      | yes k ↦
          let small : leb n 9_223_372_036_854 ≡ true = ground arith in
          t ∙ rw (small, fits n k) (ground arith)
      | no k ↦
          let big : 9_223_372_036_854 < n = omega arith in
          let large : leb n 9_223_372_036_854 ≡ false = ground arith in
          t ∙ rw (large, wraps n big h) refl
    ]
