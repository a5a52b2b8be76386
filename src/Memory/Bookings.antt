-- ===== src/Memory/Bookings.antt =====
-- Ride bookings of internal/infrastructure/memory/repositories.go.
use smallworld_be.Prelude.{String, ◌==◌, Bool, true, false, not, ◌&&◌, ◌||◌, List}
use smallworld_be.Prelude.Int.{ltb_ℤ}
use smallworld_be.Prelude.Lists.{select}
use smallworld_be.Prelude.Sort.{sort}
use smallworld_be.Prelude.Table.{get, put, values}
use smallworld_be.Domain.States.{RideBookingState}
use smallworld_be.Domain.Models.{RideBooking}
use smallworld_be.Domain.Errors.{ok, booking_not_found}
use smallworld_be.World.Exec.{Exec, or_fail}
use smallworld_be.Memory.Common.{set_store}

abbrev pub save_booking : RideBooking → Exec (Unit {0})
save_booking b w = set_store (record w.store { ride_bookings = put b.id b w.ride_bookings }) w

abbrev pub find_booking : String → Exec RideBooking
find_booking id w = (or_fail (get id w.ride_bookings) booking_not_found, w)

unfoldable pub list_by_session : String → Exec (List RideBooking)
list_by_session id w = (ok (select (λ b. b.driver_session_id == id) (values w.ride_bookings)), w)

unfoldable pub is_terminal_booking_state : RideBookingState → Bool
is_terminal_booking_state RideBookingState.completed = true
is_terminal_booking_state RideBookingState.canceled = true
is_terminal_booking_state RideBookingState.no_show = true
is_terminal_booking_state _ = false

unfoldable pub booking_before : RideBooking → RideBooking → Bool
booking_before a b = ltb_ℤ b.updated_at a.updated_at

unfoldable pub list_active_bookings : String → Exec (List RideBooking)
unfolding is_terminal_booking_state booking_before sort
list_active_bookings actor w = (
  ok (
      sort booking_before (
        select
          (λ b.
            (b.rider_id == actor || b.driver_id == actor)
            && not (is_terminal_booking_state b.state))
          (values w.ride_bookings))),
  w,
)
