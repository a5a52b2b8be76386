-- ===== src/Tests/Rides.antt =====
-- Runs of the services.
use smallworld_be.Prelude.{◌≡◌, refl, ◌⊎◌, arith}
use smallworld_be.Prelude.Int.{pos}
use smallworld_be.Prelude.Table.{get, put}
use smallworld_be.Domain.States.{RideBookingState, DriverSessionState}
use smallworld_be.Domain.Models.{DriverSession, TripDemand, RideOffer, RideBooking, Review}
use smallworld_be.Domain.Errors.{Error, ok, err, unauthorized}
use smallworld_be.Domain.Policies.{require_transition, offer_can_transition}
use smallworld_be.Services.Offers.{accept, decline, accept_by, accept_locked, accept_locked_over}
use smallworld_be.Services.Offers.Booking.{new_booking}
use smallworld_be.Services.Offers.Partial.{
  accept_locked-HalfAccepted, HalfAccepted, without_bookings,
}
use smallworld_be.Services.Offers.Atomic.{accept-error, decline-cases, Declined}
use smallworld_be.Services.Offers.Once.{answered-Refused, Refused}
use smallworld_be.Services.Offers.Transaction.{accept_by-accept_locked, untimed, reliable}
use smallworld_be.Services.Bookings.{
  transition_for_actor, get_driver_tracking_for_rider, tracking_of,
}
use smallworld_be.Services.Bookings.Access.{
  transition_for_actor-cases, Moved, get_driver_tracking_for_rider-Visible, Visible,
}
use smallworld_be.Services.Sessions.{start, start_new}
use smallworld_be.Services.Sessions.Updates.{transition_state_owned}
use smallworld_be.Services.Sessions.Replay.{start-start}
use smallworld_be.Services.Sessions.Moves as Moves
use smallworld_be.Services.Sessions.Moves.{Moved-transition_state_owned, Started-start_new, Started}
use smallworld_be.Services.Demands.{open_demand, cancel, new_demand}
use smallworld_be.Services.Demands.Opening.{Opened-open_demand, Opened, cancel-cases, Canceled}
use smallworld_be.Services.Reviews.{create_for_actor}
use smallworld_be.Services.Reviews.Sides.{create_for_actor-cases, Reviewed}
use smallworld_be.Services.Inputs.{TransitionDriverSessionStateInput}
use smallworld_be.Prelude.Table.{values}
use smallworld_be.World.Calls.{presence_save}
use smallworld_be.Services.Sessions.{new_session}
use smallworld_be.Memory.{list_vehicles}
use smallworld_be.Domain.Policies.{
  driver_eligible, session_can_transition, allows_driver_tracking, rider_eligible,
}
use smallworld_be.Tests.Fixtures.{world, old_offer, session, riding, start_input, create_input}

accept_locked-HalfAccepted_example :
    ((accept_locked_over (without_bookings unauthorized) "driver" "o1" world).0 ≡ err unauthorized)
    × HalfAccepted "o1" world
        (accept_locked_over (without_bookings unauthorized) "driver" "o1" world).1
unfolding accept_locked accept require_transition offer_can_transition new_booking get
accept_locked-HalfAccepted_example =
    accept_locked-HalfAccepted "driver" "o1" world _ unauthorized refl

accept-error_example : (accept "rider" "o1" world).1.store ≡ world.store
unfolding accept require_transition offer_can_transition get
accept-error_example = accept-error "rider" "o1" world unauthorized refl

decline-cases_example :
    ((e : Error) × ((decline "driver" "o1" world).0 ≡ err e)
      × ((decline "driver" "o1" world).1.store ≡ world.store))
    ⊎ ((o' : RideOffer) × ((decline "driver" "o1" world).0 ≡ ok o')
        × Declined "driver" "o1" world o'
        × ((decline "driver" "o1" world).1.store
            ≡ record world.store { ride_offers = put o'.id o' world.ride_offers }))
decline-cases_example = decline-cases "driver" "o1" world

answered-Refused_example :
    Refused world (accept "driver" "o0" world) × Refused world (decline "driver" "o0" world)
unfolding get
answered-Refused_example = answered-Refused "driver" "o0" old_offer world refl (λ e. ground arith)

accept_by-accept_locked_example :
    untimed (accept_by reliable "driver" "o1" world).0
    ≡ untimed (accept_locked "driver" "o1" world).0
unfolding get
accept_by-accept_locked_example = accept_by-accept_locked "driver" "o1" world refl

transition_for_actor-cases_example :
    ((e : Error) × ((transition_for_actor "rider" "b1" RideBookingState.completed world).0 ≡ err e)
      × ((transition_for_actor "rider" "b1" RideBookingState.completed world).1 ≡ world))
    ⊎ ((b' : RideBooking) × ((transition_for_actor "rider" "b1" RideBookingState.completed world).0
          ≡ ok b')
        × Moved "rider" "b1" RideBookingState.completed world b')
transition_for_actor-cases_example =
    transition_for_actor-cases "rider" "b1" RideBookingState.completed world

get_driver_tracking_for_rider-Visible_example :
    Visible "rider" "b1" world (tracking_of riding session)
unfolding get_driver_tracking_for_rider tracking_of allows_driver_tracking get
get_driver_tracking_for_rider-Visible_example =
    get_driver_tracking_for_rider-Visible "rider" "b1" world (tracking_of riding session) refl

abbrev begun : DriverSession
begun = record session {
  id = "ds";
  remaining_capacity = pos 2;
  last_heartbeat_at = pos 1_000;
  created_at = pos 1_000;
  updated_at = pos 1_000;
}

start-start_example :
    start (start_input "key") (start (start_input "key") world).1
    ≡ (ok begun, (start (start_input "key") world).1)
unfolding start driver_eligible presence_save list_vehicles new_session get put values
start-start_example = start-start (start_input "key") world begun refl refl refl

abbrev to_paused : TransitionDriverSessionStateInput
to_paused = record { session_id = "s1"; state = DriverSessionState.paused }

abbrev paused : DriverSession
paused = record session { state = DriverSessionState.paused; updated_at = pos 1_000 }

Moved-transition_state_owned_example : Moves.Moved "driver" to_paused world paused
unfolding transition_state_owned session_can_transition require_transition presence_save get put
Moved-transition_state_owned_example =
    Moved-transition_state_owned "driver" to_paused world paused refl

Started-start_new_example : Started (start_input "key") world begun
unfolding start_new driver_eligible presence_save list_vehicles new_session get put values
Started-start_new_example = Started-start_new (start_input "key") world begun refl

Opened-open_demand_example :
    Opened (create_input "key") world (new_demand "td" (create_input "key") (pos 1_000))
unfolding open_demand rider_eligible get put
Opened-open_demand_example =
    Opened-open_demand (create_input "key") world (new_demand "td" (create_input "key") (pos 1_000))
      refl

cancel-cases_example :
    ((e : Error) × ((cancel "rider" "t1" world).0 ≡ err e)
      × ((cancel "rider" "t1" world).1 ≡ world))
    ⊎ ((d' : TripDemand) × ((cancel "rider" "t1" world).0 ≡ ok d') × Canceled "rider" "t1" world d')
cancel-cases_example = cancel-cases "rider" "t1" world

create_for_actor-cases_example :
    ((e : Error) × ((create_for_actor "b0" "rider" (pos 5) "good" world).0 ≡ err e)
      × ((create_for_actor "b0" "rider" (pos 5) "good" world).1 ≡ world))
    ⊎ ((r : Review) × ((create_for_actor "b0" "rider" (pos 5) "good" world).0 ≡ ok r)
        × Reviewed "b0" "rider" (pos 5) world r
        × ((create_for_actor "b0" "rider" (pos 5) "good" world).1.store
            ≡ record world.store { reviews = put r.id r world.reviews }))
create_for_actor-cases_example = create_for_actor-cases "b0" "rider" (pos 5) "good" world
