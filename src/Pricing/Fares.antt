-- ===== src/Pricing/Fares.antt =====
-- What the fares of internal/infrastructure/pricing/fixed.go promise.
use smallworld_be.Prelude.{ℕ, ◌+◌, ◌*◌, ◌/◌, ◌-◌, ◌≡◌, arith}
use smallworld_be.Prelude.Int.{pos, ◌+ℤ◌, ◌*ℤ◌, quot}
use smallworld_be.Domain.Models.{MatchCandidate}
use smallworld_be.Domain.Errors.{ok}
use smallworld_be.Pricing.{new_fixed_formula, metered_fare, quote}

-- With the program's rates, a ride of `meters` and `seconds` costs 200 cents, 80 cents for each full
-- kilometer and 20 cents for each full minute, and 500 cents at least.
pub quote-new_fixed_formula :
    (c : MatchCandidate) (meters seconds : ℕ)
    → c.in_car_distance_meters ≡ pos meters
    → c.in_car_duration_seconds ≡ pos seconds
    → quote new_fixed_formula c
      ≡ ok (pos (500 + (200 + meters / 1000 * 80 + seconds / 60 * 20 - 500)))
unfolding quote new_fixed_formula metered_fare quot ◌+ℤ◌ ◌*ℤ◌
quote-new_fixed_formula c meters seconds h k = ground (arith, h, k)
