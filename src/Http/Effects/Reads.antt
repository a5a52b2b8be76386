-- ===== src/Http/Effects/Reads.antt =====
-- The GET handlers leave the world as it is.
use smallworld_be.Prelude.{◌≡◌, refl, Option, arith}
use smallworld_be.World.{World}
use smallworld_be.Http.Messages.{Request, answer}
use smallworld_be.Http.Server.{Server, or_refuse}
use smallworld_be.Http.Auth.{RequestIdentity}
use smallworld_be.Services.Accounts.{find_by_auth_subject, list_by_user}
use smallworld_be.Services.Sessions.Updates.{get_current_for_driver, get_owned}
use smallworld_be.Services.Demands.{get_current_for_rider, get_for_rider}
use smallworld_be.Services.Offers.{list_pending_for_driver}
use smallworld_be.Services.Bookings.{
  list_active_for_actor, get_for_actor, get_driver_tracking_for_rider,
}
use smallworld_be.Services.Reviews.{list_by_subject}
use smallworld_be.Http.Reads.{
  Handler, health, web_socket, auth_me, current_driver_session, current_trip_demand,
  current_ride_offers, current_bookings, profile_me, vehicle_list, driver_session_read,
  trip_demand_read, booking_read, user_review_list, booking_driver_tracking,
}

abbrev pub Reads : Handler → Type 0
Reads h =
    (s : Server) (who : Option RequestIdentity) (r : Request) (w : World) → (h s who r w).1 ≡ w

pub health-Reads : Reads health
unfolding health
health-Reads s who r w = refl

pub web_socket-Reads : Reads web_socket
unfolding or_refuse web_socket
web_socket-Reads s who r w = ground arith

pub auth_me-Reads : Reads auth_me
unfolding or_refuse auth_me
auth_me-Reads s who r w = ground arith

pub current_driver_session-Reads : Reads current_driver_session
unfolding or_refuse current_driver_session get_current_for_driver answer
current_driver_session-Reads s who r w = ground arith

pub booking_read-Reads : Reads booking_read
unfolding or_refuse booking_read booking_driver_tracking get_for_actor answer
    get_driver_tracking_for_rider
booking_read-Reads s who r w = ground arith

pub current_trip_demand-Reads : Reads current_trip_demand
unfolding or_refuse current_trip_demand get_current_for_rider answer
current_trip_demand-Reads s who r w = ground arith

pub current_ride_offers-Reads : Reads current_ride_offers
unfolding or_refuse current_ride_offers list_pending_for_driver answer
current_ride_offers-Reads s who r w = ground arith

pub current_bookings-Reads : Reads current_bookings
unfolding or_refuse current_bookings list_active_for_actor answer
current_bookings-Reads s who r w = ground arith

pub profile_me-Reads : Reads profile_me
unfolding or_refuse profile_me find_by_auth_subject answer
profile_me-Reads s who r w = ground arith

pub vehicle_list-Reads : Reads vehicle_list
unfolding or_refuse vehicle_list list_by_user answer
vehicle_list-Reads s who r w = ground arith

pub driver_session_read-Reads : Reads driver_session_read
unfolding or_refuse driver_session_read get_owned answer
driver_session_read-Reads s who r w = ground arith

pub trip_demand_read-Reads : Reads trip_demand_read
unfolding or_refuse trip_demand_read get_for_rider answer
trip_demand_read-Reads s who r w = ground arith

pub user_review_list-Reads : Reads user_review_list
unfolding or_refuse user_review_list list_by_subject answer
user_review_list-Reads s who r w = ground arith
