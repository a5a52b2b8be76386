-- ===== src/Services/Offers.antt =====
-- internal/application/service/offer_service.go.
pub mod Booking
pub mod Atomic
pub mod Once
pub mod Partial
pub mod Transaction
use smallworld_be.Prelude.{
  String, ◌==◌, Bool, true, false, not, ◌&&◌, Option, none, some, List, [], ◌∷◌, if◌then◌else◌,
}
use smallworld_be.Prelude.Int.{ℤ, pos, ◌-ℤ◌, leb_ℤ}
use smallworld_be.Domain.States.{
  RideOfferState, RideBookingState, DriverSessionState, TripDemandState, offer_text,
}
use smallworld_be.Domain.Models.{
  Time, Location, DriverSession, TripDemand, RideOffer, RideBooking, Vehicle,
}
use smallworld_be.Domain.Errors.{
  Error, Result, ok, err, unauthorized, capacity_exceeded, offer_not_found,
}
use smallworld_be.Domain.Policies.{offer_can_transition, require_transition}
use smallworld_be.World.{World, Database, Payload}
use smallworld_be.World.Exec.{Exec, pure, fail, lift, require, ignore, non_empty, ◌>>=◌, ◌>>◌}
use smallworld_be.World.Calls.{now, next_id, push_rider_matched, publish, ephemeral_delete}
use smallworld_be.Memory.{
  find_offer, find_session, find_demand, find_vehicle, save_offer, save_session, save_demand,
  save_booking, list_pending_by_driver,
}
use smallworld_be.Acceptor.{accept_offer}
use Booking.{new_booking, take_seat, accepted_offer, matched_demand}

-- The branch of `Accept` with an acceptor.
unfoldable pub accept_by : Database → String → String → Exec RideBooking
accept_by db actor offer_id = do
  offer ← find_offer offer_id
  session ← find_session offer.driver_session_id
  require (session.driver_id == actor) unauthorized
  id ← next_id "booking"
  t ← now
  booking ← accept_offer db offer_id id t
  ignore (ephemeral_delete offer_id)
  push_rider_matched booking.rider_id booking
  publish booking.rider_id "ride_booking.assigned" (Payload.booking booking)
  pure booking

-- The `Save` methods of the service's repositories, which `Accept` calls without an acceptor.
pub record Saves : Type 0 where
  pub offers : RideOffer → Exec (Unit {0})
  pub bookings : RideBooking → Exec (Unit {0})
  pub sessions : DriverSession → Exec (Unit {0})
  pub demands : TripDemand → Exec (Unit {0})

-- The branch without one, under the service's mutex; the first `Save` that fails ends it.
abbrev pub accept_locked_over : Saves → String → String → Exec RideBooking
accept_locked_over saves actor offer_id = do
  offer ← find_offer offer_id
  lift (
      require_transition "ride_offer" (offer_text offer.state)
        (offer_can_transition offer.state RideOfferState.accepted)
        (offer_text RideOfferState.accepted))
  session ← find_session offer.driver_session_id
  require (not (leb_ℤ session.remaining_capacity (pos 0))) capacity_exceeded
  require (session.driver_id == actor) unauthorized
  demand ← find_demand offer.demand_id
  vehicle ← find_vehicle session.vehicle_id
  t ← now
  saves.offers (accepted_offer offer t)
  id ← next_id "booking"
  created ← now
  updated ← now
  let booking = new_booking id offer session demand vehicle created updated
  saves.bookings booking
  t' ← now
  saves.sessions (take_seat session t')
  t'' ← now
  saves.demands (matched_demand demand t'')
  push_rider_matched demand.rider_id booking
  publish demand.rider_id "ride_booking.assigned" (Payload.booking booking)
  ignore (ephemeral_delete offer_id)
  pure booking

-- The memory store's, none of which fails: the program runs this branch over that store.
abbrev pub memory_saves : Saves
memory_saves = record {
  offers = save_offer;
  bookings = save_booking;
  sessions = save_session;
  demands = save_demand;
}

unfoldable pub accept_locked : String → String → Exec RideBooking
accept_locked = accept_locked_over memory_saves

unfoldable pub accept_with : Option Database → String → String → Exec RideBooking
unfolding accept_by accept_locked
accept_with (some db) = accept_by db
accept_with none = accept_locked

unfoldable pub accept : String → String → Exec RideBooking
unfolding accept_with
accept actor offer_id w = accept_with w.acceptor actor offer_id w

unfoldable pub decline : String → String → Exec RideOffer
decline actor offer_id = do
  offer ← find_offer offer_id
  session ← find_session offer.driver_session_id
  require (session.driver_id == actor) unauthorized
  lift (
      require_transition "ride_offer" (offer_text offer.state)
        (offer_can_transition offer.state RideOfferState.declined)
        (offer_text RideOfferState.declined))
  t ← now
  let declined = record offer { state = RideOfferState.declined; updated_at = t }
  save_offer declined
  ignore (ephemeral_delete offer_id)
  pure declined

unfoldable pub list_pending_for_driver : String → Exec (List RideOffer)
unfolding list_pending_by_driver
list_pending_for_driver actor = do
  offers ← list_pending_by_driver actor
  non_empty offer_not_found offers
