-- ===== src/Pricing.antt =====
-- internal/infrastructure/pricing/fixed.go. Fares are taken to stay below 2 ^ 63.
pub mod Fares
use smallworld_be.Prelude.{if◌then◌else◌}
use smallworld_be.Prelude.Int.{ℤ, pos, ◌+ℤ◌, ◌*ℤ◌, quot, ltb_ℤ}
use smallworld_be.Domain.Models.{MatchCandidate}
use smallworld_be.Domain.Errors.{Result, ok}

pub record FixedFormula : Type 0 where
  pub base_fare_cents : ℤ
  pub per_kilometer_cents : ℤ
  pub per_minute_cents : ℤ
  pub minimum_fare_cents : ℤ

unfoldable pub new_fixed_formula : FixedFormula
new_fixed_formula = record {
  base_fare_cents = pos 200;
  per_kilometer_cents = pos 80;
  per_minute_cents = pos 20;
  minimum_fare_cents = pos 500;
}

unfoldable pub metered_fare : FixedFormula → MatchCandidate → ℤ
unfolding ◌+ℤ◌ ◌*ℤ◌ quot
metered_fare f c =
    f.base_fare_cents
    +ℤ quot c.in_car_distance_meters 1000 *ℤ f.per_kilometer_cents
    +ℤ quot c.in_car_duration_seconds 60 *ℤ f.per_minute_cents

unfoldable pub quote : FixedFormula → MatchCandidate → Result ℤ
unfolding metered_fare
quote f c =
    let fare = metered_fare f c in
    ok (if ltb_ℤ fare f.minimum_fare_cents then f.minimum_fare_cents else fare)
