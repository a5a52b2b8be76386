-- ===== src/Services/Bookings/Access.antt =====
-- Who may move, read and follow a booking, by booking_service.go.
use smallworld_be.Prelude.{
  String, ◌≡◌, ◌⊎◌, inl, inr, true, false, some, arith, eq_iff, Option-cases,
}
use smallworld_be.Prelude.Table.{get, put}
use smallworld_be.Domain.States.{RideBookingState}
use smallworld_be.Domain.Models.{DriverSession, RideBooking, DriverTracking}
use smallworld_be.Domain.Errors.{Error, ok, err, Result-cases}
use smallworld_be.Domain.Policies.{
  booking_can_transition, require_transition, allows_driver_tracking,
}
use smallworld_be.World.{World}
use smallworld_be.Services.Bookings.{
  transition_for_actor, get_driver_tracking_for_rider, tracking_of, moved_booking,
}
use smallworld_be.Memory.{is_ended}

-- What a move of a booking that succeeded found and wrote.
pub record Moved (actor id : String) (next : RideBookingState) (w : World) (b' : RideBooking)
    : Type 0 where
  pub booking : RideBooking
  pub has_booking : get id w.ride_bookings ≡ some booking
  pub by_participant : (actor ≡ booking.rider_id) ⊎ (actor ≡ booking.driver_id)
  pub allowed : booking_can_transition booking.state next ≡ true
  pub result : b' ≡ record booking { state = next; updated_at = w.clock w.ticks }
  pub written :
      (transition_for_actor actor id next w).1.store
      ≡ record w.store { ride_bookings = put booking.id b' w.ride_bookings }

Moved-transition_for_actor :
    (actor id : String) (next : RideBookingState) (w : World) (b' : RideBooking)
    → (transition_for_actor actor id next w).0 ≡ ok b'
    → Moved actor id next w b'
unfolding transition_for_actor require_transition moved_booking
Moved-transition_for_actor actor id next w b' h = elim (Option-cases (get id w.ride_bookings)) [
  | inl e ↦ absurd (ground arith)
  | inr (b, hb) ↦ record {
    booking = b;
    has_booking = hb;
    by_participant = ground (arith, eq_iff b.rider_id actor, eq_iff b.driver_id actor);
    allowed = ground arith;
    result = ground arith;
    written = ground arith;
  }
]

transition_for_actor-error :
    (actor id : String) (next : RideBookingState) (w : World) (e : Error)
    → (transition_for_actor actor id next w).0 ≡ err e
    → (transition_for_actor actor id next w).1 ≡ w
unfolding transition_for_actor require_transition
transition_for_actor-error actor id next w e h = ground arith

-- Moving a booking on behalf of a user either fails and then changes nothing and tells nobody, or
-- the user is the booking's rider or driver and the state machine allows the move, and then the
-- booking is written back in its new state, stamped with the clock, and no other row changes.
pub transition_for_actor-cases :
    (actor id : String) (next : RideBookingState) (w : World)
    → ((e : Error) × ((transition_for_actor actor id next w).0 ≡ err e)
        × ((transition_for_actor actor id next w).1 ≡ w))
      ⊎ ((b' : RideBooking) × ((transition_for_actor actor id next w).0 ≡ ok b')
          × Moved actor id next w b')
transition_for_actor-cases actor id next w =
    elim (Result-cases (transition_for_actor actor id next w).0) [
      | inl (b', h) ↦ inr (b', h, Moved-transition_for_actor actor id next w b' h)
      | inr (e, h) ↦ inl (e, h, transition_for_actor-error actor id next w e h)
    ]

-- What makes a rider see where the driver is.
pub record Visible (rider id : String) (w : World) (t : DriverTracking) : Type 0 where
  pub booking : RideBooking
  pub session : DriverSession
  pub has_booking : get id w.ride_bookings ≡ some booking
  pub has_session : get booking.driver_session_id w.driver_sessions ≡ some session
  pub of_rider : booking.rider_id ≡ rider
  pub is_open : allows_driver_tracking booking.state ≡ true
  pub not_ended : is_ended session.state ≡ false
  pub at_session : t.current_location ≡ session.current_location
  pub of_booking : t.booking_id ≡ booking.id

-- Asked where the driver of a booking is, the service answers only the rider of that booking, only
-- while the booking is open and its session has not ended, and the answer holds that session's
-- position. The events that a heartbeat publishes are not part of this.
pub get_driver_tracking_for_rider-Visible :
    (rider id : String) (w : World) (t : DriverTracking)
    → (get_driver_tracking_for_rider rider id w).0 ≡ ok t
    → Visible rider id w t
unfolding get_driver_tracking_for_rider tracking_of
get_driver_tracking_for_rider-Visible rider id w t h =
    elim (Option-cases (get id w.ride_bookings)) [
      | inl e ↦ absurd (ground arith)
      | inr (b, hb) ↦ elim (Option-cases (get b.driver_session_id w.driver_sessions)) [
        | inl e ↦ absurd (ground arith)
        | inr (d, hd) ↦ record {
          booking = b;
          session = d;
          has_booking = hb;
          has_session = hd;
          of_rider = ground (arith, eq_iff b.rider_id rider);
          is_open = ground arith;
          not_ended = ground arith;
          at_session = ground arith;
          of_booking = ground arith;
        }
      ]
    ]
