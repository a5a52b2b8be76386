-- ===== src/Services/Offers/Booking.antt =====
-- The records that an acceptance writes, as internal/application/service/offer_service.go and
-- internal/infrastructure/postgres/offer_acceptor.go build them alike.
use smallworld_be.Prelude.{String, Option, none, some, if◌then◌else◌}
use smallworld_be.Prelude.Int.{pos, ◌-ℤ◌, leb_ℤ}
use smallworld_be.Domain.States.{
  RideOfferState, RideBookingState, DriverSessionState, TripDemandState,
}
use smallworld_be.Domain.Models.{
  Time, Location, DriverSession, TripDemand, RideOffer, RideBooking, Vehicle,
}

abbrev pub deref_location : Option Location → Location → Location
deref_location none fallback = fallback
deref_location (some l) fallback = l

unfoldable pub accepted_offer : RideOffer → Time → RideOffer
accepted_offer offer t = record offer { state = RideOfferState.accepted; updated_at = t }

unfoldable pub new_booking :
    String → RideOffer → DriverSession → TripDemand → Vehicle → Time → Time → RideBooking
new_booking id offer session demand vehicle created updated = record {
  id = id;
  demand_id = demand.id;
  driver_session_id = session.id;
  rider_id = demand.rider_id;
  driver_id = session.driver_id;
  state = RideBookingState.assigned;
  matched_pickup = deref_location demand.matched_pickup demand.requested_origin;
  matched_dropoff = deref_location demand.matched_dropoff demand.requested_destination;
  rider_walk_to_pickup_m = pos 0;
  rider_walk_from_dropoff_m = pos 0;
  driver_pickup_detour_m = pos 0;
  quoted_fare_cents = offer.fare_cents;
  vehicle_license_plate = vehicle.license_plate;
  created_at = created;
  updated_at = updated;
}

unfoldable pub take_seat : DriverSession → Time → DriverSession
unfolding ◌-ℤ◌
take_seat session t =
    let left = session.remaining_capacity -ℤ pos 1 in
    record session {
      remaining_capacity = left;
      updated_at = t;
      state = if leb_ℤ left (pos 0) then DriverSessionState.full else session.state;
    }

unfoldable pub matched_demand : TripDemand → Time → TripDemand
matched_demand demand t = record demand { state = TripDemandState.matched; updated_at = t }
