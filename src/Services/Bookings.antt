-- ===== src/Services/Bookings.antt =====
-- internal/application/service/booking_service.go.
pub mod Access
use smallworld_be.Prelude.{String, ◌==◌, Bool, not, ◌||◌, List}
use Prim.Native.String.{◌++◌ as str_append}
use smallworld_be.Domain.States.{RideBookingState, booking_text}
use smallworld_be.Domain.Models.{Time, DriverSession, RideBooking, DriverTracking}
use smallworld_be.Domain.Errors.{unauthorized, driver_tracking_unavailable, booking_not_found}
use smallworld_be.Domain.Policies.{
  allows_driver_tracking, booking_can_transition, require_transition,
}
use smallworld_be.World.{Payload}
use smallworld_be.World.Exec.{Exec, pure, lift, require, non_empty, ◌>>=◌, ◌>>◌}
use smallworld_be.World.Calls.{now, publish}
use smallworld_be.Memory.{find_booking, find_session, save_booking, list_active_bookings, is_ended}

unfoldable pub tracking_of : RideBooking → DriverSession → DriverTracking
tracking_of booking session = record {
  booking_id = booking.id;
  driver_session_id = session.id;
  booking_state = booking.state;
  session_state = session.state;
  current_location = session.current_location;
  route_polyline = session.route_polyline;
  last_heartbeat_at = session.last_heartbeat_at;
  updated_at = session.updated_at;
}

unfoldable pub get_driver_tracking_for_rider : String → String → Exec DriverTracking
get_driver_tracking_for_rider rider booking_id = do
  booking ← find_booking booking_id
  require (booking.rider_id == rider) unauthorized
  require (allows_driver_tracking booking.state) driver_tracking_unavailable
  session ← find_session booking.driver_session_id
  require (not (is_ended session.state)) driver_tracking_unavailable
  pure (tracking_of booking session)

-- booking.RiderID == actorUserID || booking.DriverID == actorUserID
abbrev pub takes_part : String → RideBooking → Bool
takes_part actor b = b.rider_id == actor || b.driver_id == actor

unfoldable pub moved_booking : RideBooking → RideBookingState → Time → RideBooking
moved_booking b next t = record b { state = next; updated_at = t }

-- The part that `Transition` and `TransitionForActor` share: check the move, save, tell both sides.
unfoldable pub move_booking : RideBooking → RideBookingState → Exec RideBooking
unfolding moved_booking
move_booking booking next = do
  lift (
      require_transition "ride_booking" (booking_text booking.state)
        (booking_can_transition booking.state next) (booking_text next))
  t ← now
  let moved = moved_booking booking next t
  let event = str_append "ride_booking." (booking_text next)
  save_booking moved
  publish moved.rider_id event (Payload.booking moved)
  publish moved.driver_id event (Payload.booking moved)
  pure moved

unfoldable pub transition : String → RideBookingState → Exec RideBooking
unfolding move_booking
transition booking_id next = do booking ← find_booking booking_id; move_booking booking next

unfoldable pub transition_for_actor : String → String → RideBookingState → Exec RideBooking
unfolding move_booking
transition_for_actor actor booking_id next = do
  booking ← find_booking booking_id
  require (takes_part actor booking) unauthorized
  move_booking booking next

unfoldable pub get_for_actor : String → String → Exec RideBooking
get_for_actor actor booking_id = do
  booking ← find_booking booking_id
  require (takes_part actor booking) unauthorized
  pure booking

unfoldable pub list_active_for_actor : String → Exec (List RideBooking)
unfolding list_active_bookings
list_active_for_actor actor = do
  bookings ← list_active_bookings actor
  non_empty booking_not_found bookings
