-- ===== src/Postgres/Bookings.antt =====
-- RideBookings of internal/infrastructure/postgres/repositories.go.
use smallworld_be.Prelude.{String, ◌==◌, Bool, true, false, not, ◌&&◌, ◌||◌, List}
use smallworld_be.Prelude.Int.{ltb_ℤ}
use smallworld_be.Prelude.Lists.{select}
use smallworld_be.Prelude.Sort.{sort}
use smallworld_be.Prelude.Table.{get, values}
use smallworld_be.Domain.States.{RideBookingState}
use smallworld_be.Domain.Models.{RideBooking}
use smallworld_be.Domain.Errors.{ok, booking_not_found}
use smallworld_be.World.Exec.{Exec, or_fail}
use smallworld_be.Memory.{set_store}
use smallworld_be.Postgres.{Pool, statement, upsert}

unfoldable pub booking_row : Pool → RideBooking → RideBooking
booking_row p b = record b {
  matched_pickup = p.point b.matched_pickup;
  matched_dropoff = p.point b.matched_dropoff;
  created_at = p.time b.created_at;
  updated_at = p.time b.updated_at;
}

unfoldable pub save_booking : Pool → RideBooking → Exec (Unit {0})
unfolding booking_row upsert statement
save_booking p b = statement p "save ride booking" λ w.
    set_store
      (record w.store {
        ride_bookings =
            upsert (λ old new. record new { created_at = old.created_at }) b.id (booking_row p b)
              w.ride_bookings;
      })
      w

unfoldable pub find_booking : Pool → String → Exec RideBooking
unfolding statement
find_booking p id =
    statement p "find ride booking by id"
      λ w. (or_fail (get id w.ride_bookings) booking_not_found, w)

-- ORDER BY created_at ASC
unfoldable pub booking_older : RideBooking → RideBooking → Bool
booking_older a b = ltb_ℤ a.created_at b.created_at

unfoldable pub list_by_session : Pool → String → Exec (List RideBooking)
unfolding booking_older sort statement
list_by_session p id = statement p "list ride bookings by driver session id" λ w.
    (ok (sort booking_older (select (λ b. b.driver_session_id == id) (values w.ride_bookings))), w)

-- state IN ('completed', 'canceled', 'no_show')
unfoldable pub is_over : RideBookingState → Bool
is_over RideBookingState.completed = true
is_over RideBookingState.canceled = true
is_over RideBookingState.no_show = true
is_over _ = false

-- ORDER BY updated_at DESC
unfoldable pub booking_newer : RideBooking → RideBooking → Bool
booking_newer a b = ltb_ℤ b.updated_at a.updated_at

unfoldable pub list_active_bookings : Pool → String → Exec (List RideBooking)
unfolding is_over booking_newer sort statement
list_active_bookings p actor = statement p "list active ride bookings by actor id" λ w. (
  ok (
      sort booking_newer (
        select (λ b. (b.rider_id == actor || b.driver_id == actor) && not (is_over b.state))
          (values w.ride_bookings))),
  w,
)
