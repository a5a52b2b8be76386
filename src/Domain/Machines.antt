-- ===== src/Domain/Machines.antt =====
-- The state machines of internal/domain/policies.go as graphs: how far a booking has come, and
-- where the machines end.
use smallworld_be.Prelude.{ℕ, ◌<◌, ◌≡◌, true, false, arith}
use smallworld_be.Domain.States.{RideOfferState, RideBookingState}
use smallworld_be.Domain.Policies.{
  booking_can_transition, offer_can_transition, allows_driver_tracking,
}

-- The stage of a booking; the three ends come last.
unfoldable pub stage : RideBookingState → ℕ
stage RideBookingState.assigned = 0
stage RideBookingState.rider_walking_to_pickup = 1
stage RideBookingState.driver_en_route_to_pickup = 2
stage RideBookingState.pickup_ready = 3
stage RideBookingState.onboard = 4
stage _ = 5

-- Every allowed move of a booking goes to a later stage, so a booking moves five times at most and
-- never comes back to a state.
pub booking_can_transition-stage :
    (s next : RideBookingState) → booking_can_transition s next ≡ true → stage s < stage next
unfolding booking_can_transition stage
booking_can_transition-stage s next h = ground arith

pub no_tracking_is_end :
    (s next : RideBookingState)
    → allows_driver_tracking s ≡ false
    → booking_can_transition s next ≡ false
unfolding booking_can_transition allows_driver_tracking
no_tracking_is_end s next h = ground arith

-- A state that an offer has moved to is an end.
pub offer_moves_once :
    (s t u : RideOfferState) → offer_can_transition s t ≡ true → offer_can_transition t u ≡ false
unfolding offer_can_transition
offer_moves_once s t u h = ground arith
