-- ===== src/Domain/Policies.antt =====
-- internal/domain/policies.go. A method `CanTransitionTo` depends on the entity's state only.
use smallworld_be.Prelude.{String, Bool, true, false, not, ◌&&◌, ◌||◌, List, [], ◌∷◌, if◌then◌else◌}
use smallworld_be.Prelude.Int.{pos, ltb_ℤ, leb_ℤ}
use smallworld_be.Domain.States.{
  Gender, VerificationStatus, TripDemandState, RideOfferState, RideBookingState, DriverSessionState,
}
use smallworld_be.Domain.Models.{IdentityVerification, Vehicle, DriverSession, TripDemand}
use smallworld_be.Domain.Errors.{Result, ok, err, transition_not_allowed}

abbrev pub status_is_verified : VerificationStatus → Bool
status_is_verified VerificationStatus.verified = true
status_is_verified _ = false

abbrev pub is_female : Gender → Bool
is_female Gender.female = true
is_female _ = false

abbrev pub is_active_or_full : DriverSessionState → Bool
is_active_or_full DriverSessionState.active = true
is_active_or_full DriverSessionState.full = true
is_active_or_full _ = false

unfoldable pub is_verified : IdentityVerification → Bool
is_verified v = status_is_verified v.status

unfoldable pub rider_eligible : IdentityVerification → Bool
unfolding is_verified
rider_eligible v = is_verified v

-- The loop of `DriverEligible`.
has_usable_vehicle : List Vehicle → Bool
has_usable_vehicle [] = false
has_usable_vehicle (v ∷ vs) = (v.is_active && ltb_ℤ (pos 0) v.capacity) || has_usable_vehicle vs

unfoldable pub driver_eligible : IdentityVerification → List Vehicle → Bool
unfolding is_verified has_usable_vehicle
driver_eligible v vehicles = if is_verified v then has_usable_vehicle vehicles else false

unfoldable pub can_driver_serve_demand : DriverSession → IdentityVerification → TripDemand → Bool
can_driver_serve_demand session verification demand =
    if not (is_active_or_full session.state)
    then false
    else if leb_ℤ session.remaining_capacity (pos 0)
    then false
    else if demand.women_drivers_only && not (is_female verification.verified_gender)
    then false
    else true

-- `TripDemand.CanTransitionTo`
unfoldable pub demand_can_transition : TripDemandState → TripDemandState → Bool
demand_can_transition TripDemandState.draft TripDemandState.searching = true
demand_can_transition TripDemandState.draft TripDemandState.canceled = true
demand_can_transition TripDemandState.searching TripDemandState.offered = true
demand_can_transition TripDemandState.searching TripDemandState.matched = true
demand_can_transition TripDemandState.searching TripDemandState.canceled = true
demand_can_transition TripDemandState.searching TripDemandState.aborted = true
demand_can_transition TripDemandState.offered TripDemandState.searching = true
demand_can_transition TripDemandState.offered TripDemandState.matched = true
demand_can_transition TripDemandState.offered TripDemandState.canceled = true
demand_can_transition TripDemandState.offered TripDemandState.aborted = true
demand_can_transition _ _ = false

-- `RideOffer.CanTransitionTo`
unfoldable pub offer_can_transition : RideOfferState → RideOfferState → Bool
offer_can_transition RideOfferState.pending RideOfferState.accepted = true
offer_can_transition RideOfferState.pending RideOfferState.declined = true
offer_can_transition RideOfferState.pending RideOfferState.expired = true
offer_can_transition RideOfferState.pending RideOfferState.withdrawn = true
offer_can_transition _ _ = false

-- `RideBooking.CanTransitionTo`
unfoldable pub booking_can_transition : RideBookingState → RideBookingState → Bool
booking_can_transition RideBookingState.assigned RideBookingState.rider_walking_to_pickup = true
booking_can_transition RideBookingState.assigned RideBookingState.driver_en_route_to_pickup = true
booking_can_transition RideBookingState.assigned RideBookingState.canceled = true
booking_can_transition RideBookingState.rider_walking_to_pickup
      RideBookingState.driver_en_route_to_pickup =
    true
booking_can_transition RideBookingState.rider_walking_to_pickup RideBookingState.pickup_ready = true
booking_can_transition RideBookingState.rider_walking_to_pickup RideBookingState.canceled = true
booking_can_transition RideBookingState.rider_walking_to_pickup RideBookingState.no_show = true
booking_can_transition RideBookingState.driver_en_route_to_pickup RideBookingState.pickup_ready =
    true
booking_can_transition RideBookingState.driver_en_route_to_pickup RideBookingState.canceled = true
booking_can_transition RideBookingState.driver_en_route_to_pickup RideBookingState.no_show = true
booking_can_transition RideBookingState.pickup_ready RideBookingState.onboard = true
booking_can_transition RideBookingState.pickup_ready RideBookingState.canceled = true
booking_can_transition RideBookingState.pickup_ready RideBookingState.no_show = true
booking_can_transition RideBookingState.onboard RideBookingState.completed = true
booking_can_transition RideBookingState.onboard RideBookingState.canceled = true
booking_can_transition _ _ = false

unfoldable pub allows_driver_tracking : RideBookingState → Bool
allows_driver_tracking RideBookingState.assigned = true
allows_driver_tracking RideBookingState.rider_walking_to_pickup = true
allows_driver_tracking RideBookingState.driver_en_route_to_pickup = true
allows_driver_tracking RideBookingState.pickup_ready = true
allows_driver_tracking RideBookingState.onboard = true
allows_driver_tracking _ = false

-- `DriverSession.CanTransitionTo`
unfoldable pub session_can_transition : DriverSessionState → DriverSessionState → Bool
session_can_transition DriverSessionState.active DriverSessionState.full = true
session_can_transition DriverSessionState.active DriverSessionState.paused = true
session_can_transition DriverSessionState.active DriverSessionState.ended = true
session_can_transition DriverSessionState.full DriverSessionState.active = true
session_can_transition DriverSessionState.full DriverSessionState.paused = true
session_can_transition DriverSessionState.full DriverSessionState.ended = true
session_can_transition DriverSessionState.paused DriverSessionState.active = true
session_can_transition DriverSessionState.paused DriverSessionState.ended = true
session_can_transition _ _ = false

unfoldable pub require_transition : String → String → Bool → String → Result (Unit {0})
require_transition entity from true to = ok tt
require_transition entity from false to = err (transition_not_allowed entity from to)
