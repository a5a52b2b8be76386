-- ===== src/Http/Effects/Guards.antt =====
-- Without an identity no POST handler does anything.
use smallworld_be.Prelude.{◌≡◌, none, arith}
use smallworld_be.World.{World}
use smallworld_be.Http.Messages.{Request}
use smallworld_be.Http.Server.{Server, or_refuse}
use smallworld_be.Http.Auth.{current_user_id, require_identity}
use smallworld_be.Http.Reads.{Handler}
use smallworld_be.Http.Actions.{
  dev_bootstrap, profile_upsert, vehicle_create, driver_session_create, driver_session_actions,
  trip_demand_create, trip_demand_actions, offer_actions, booking_actions, booking_transition,
  review_create,
}

abbrev pub Guarded : Handler → Type 0
Guarded h = (s : Server) (r : Request) (w : World) → (h s none r w).1 ≡ w

pub dev_bootstrap-Guarded : Guarded dev_bootstrap
unfolding dev_bootstrap or_refuse current_user_id require_identity
dev_bootstrap-Guarded s r w = ground arith

pub profile_upsert-Guarded : Guarded profile_upsert
unfolding profile_upsert or_refuse current_user_id require_identity
profile_upsert-Guarded s r w = ground arith

pub vehicle_create-Guarded : Guarded vehicle_create
unfolding vehicle_create or_refuse current_user_id require_identity
vehicle_create-Guarded s r w = ground arith

pub driver_session_create-Guarded : Guarded driver_session_create
unfolding driver_session_create or_refuse current_user_id require_identity
driver_session_create-Guarded s r w = ground arith

pub driver_session_actions-Guarded : Guarded driver_session_actions
unfolding driver_session_actions or_refuse current_user_id require_identity
driver_session_actions-Guarded s r w = ground arith

pub trip_demand_create-Guarded : Guarded trip_demand_create
unfolding trip_demand_create or_refuse current_user_id require_identity
trip_demand_create-Guarded s r w = ground arith

pub trip_demand_actions-Guarded : Guarded trip_demand_actions
unfolding trip_demand_actions or_refuse current_user_id require_identity
trip_demand_actions-Guarded s r w = ground arith

pub offer_actions-Guarded : Guarded offer_actions
unfolding offer_actions or_refuse current_user_id require_identity
offer_actions-Guarded s r w = ground arith

pub booking_actions-Guarded : Guarded booking_actions
unfolding booking_actions booking_transition review_create or_refuse current_user_id
    require_identity
booking_actions-Guarded s r w = ground arith
