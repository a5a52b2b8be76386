-- ===== src/Http/Effects/Actions.antt =====
-- Every POST handler makes one call of its caller's own at most.
use smallworld_be.Prelude.{String, ◌≡◌, refl, true, not, some}
use text.Mathlib.TextPositions.{eq_refl}
use smallworld_be.World.{World}
use smallworld_be.Run.{
  perform, upsert_profile, new_vehicle, dev_bootstrap as bootstrap_call, start_session, beat,
  move_session, create_demand, cancel_demand, accept_offer, decline_offer, move_booking, review,
}
use smallworld_be.Http.Messages.{Request}
use smallworld_be.Http.Server.{Server, ReviewBody}
use smallworld_be.Http.Auth.{RequestIdentity}
use smallworld_be.Text.{trim_prefix, has_suffix}
use smallworld_be.Http.Reads.{Handler}
use smallworld_be.Http.Actions.{
  bootstrap_input, dev_bootstrap, profile_upsert, vehicle_create, driver_session_create,
  driver_session_actions, session_heartbeat, session_state, trip_demand_create, trip_demand_actions,
  offer_actions, booking_actions, booking_transition, review_create,
}
use smallworld_be.Http.Effects.{
  Effect, quiet, acts_as, by_user, for_user-Effect, for_caller-Effect, for_body-Effect, when-Effect,
  answer-Effect,
}

abbrev pub Acts : Handler → Type 0
Acts h =
    (s : Server) (who : RequestIdentity) (r : Request) (w : World)
    → Effect s who w (h s (some who) r w)

pub vehicle_create-Acts : Acts vehicle_create
unfolding vehicle_create acts_as perform
vehicle_create-Acts s who r w = for_user-Effect s who w _ _ λ id own.
    for_body-Effect s who w _ _
      λ input. answer-Effect s who (new_vehicle (record input { user_id = id })) w _ _ _ _ own refl

pub driver_session_create-Acts : Acts driver_session_create
unfolding driver_session_create acts_as perform
driver_session_create-Acts s who r w = for_user-Effect s who w _ _ λ id own.
    for_body-Effect s who w _ _ λ input.
      answer-Effect s who (start_session (record input { user_id = id })) w _ _ _ _ own refl

pub trip_demand_create-Acts : Acts trip_demand_create
unfolding trip_demand_create acts_as perform
trip_demand_create-Acts s who r w = for_user-Effect s who w _ _ λ id own.
    for_body-Effect s who w _ _ λ input.
      answer-Effect s who (create_demand (record input { rider_id = id })) w _ _ _ _ own refl

pub profile_upsert-Acts : Acts profile_upsert
unfolding profile_upsert acts_as perform
profile_upsert-Acts s who r w = for_caller-Effect s who w _ _ (
    for_body-Effect s who w _ _ λ input.
      answer-Effect s who (upsert_profile who.subject input) w _ _ _ _ (eq_refl who.subject) refl)

-- This handler stands in the table only if the server is set so.
pub dev_bootstrap-Acts :
    (s : Server) (who : RequestIdentity) (r : Request) (w : World)
    → s.enable_dev_bootstrap ≡ true
    → Effect s who w (dev_bootstrap s (some who) r w)
unfolding dev_bootstrap acts_as perform
dev_bootstrap-Acts s who r w e = for_caller-Effect s who w _ _ (
    for_body-Effect s who w _ _ λ body.
      answer-Effect s who (bootstrap_call (bootstrap_input who body)) w _ _ _ _
        (rw e (eq_refl who.subject)) refl)

session_heartbeat-Effect :
    (s : Server) (who : RequestIdentity) (r : Request) (w : World) (user_id session_id : String)
    → by_user who user_id ≡ true
    → Effect s who w (session_heartbeat s user_id session_id r w)
unfolding session_heartbeat acts_as perform
session_heartbeat-Effect s who r w user_id session_id own = for_body-Effect s who w _ _ λ location.
    answer-Effect s who
      (beat user_id (record { session_id = session_id; current_location = location })) w _ _ _ _ own
      refl

session_state-Effect :
    (s : Server) (who : RequestIdentity) (r : Request) (w : World) (user_id session_id : String)
    → by_user who user_id ≡ true
    → Effect s who w (session_state s user_id session_id r w)
unfolding session_state acts_as perform
session_state-Effect s who r w user_id session_id own = for_body-Effect s who w _ _ λ state.
    answer-Effect s who (move_session user_id (record { session_id = session_id; state = state })) w
      _ _ _ _ own refl

pub driver_session_actions-Acts : Acts driver_session_actions
unfolding driver_session_actions
driver_session_actions-Acts s who r w = for_user-Effect s who w _ _ λ id own.
    when-Effect s who w (has_suffix (trim_prefix r.path "/v1/driver-sessions/") "/heartbeat") _ _
      (session_heartbeat-Effect s who r w id _ own)
      (when-Effect s who w (has_suffix (trim_prefix r.path "/v1/driver-sessions/") "/state") _ _
        (session_state-Effect s who r w id _ own) (quiet refl))

pub trip_demand_actions-Acts : Acts trip_demand_actions
unfolding trip_demand_actions acts_as perform
trip_demand_actions-Acts s who r w =
    when-Effect s who w (not (has_suffix r.path "/cancel")) _ _ (quiet refl) (
      for_user-Effect s who w _ _
        λ id own. answer-Effect s who (cancel_demand id _) w _ _ _ _ own refl)

pub offer_actions-Acts : Acts offer_actions
unfolding offer_actions acts_as perform
offer_actions-Acts s who r w =
    when-Effect s who w (has_suffix (trim_prefix r.path "/v1/ride-offers/") "/accept") _ _
      (for_user-Effect s who w _ _
        λ id own. answer-Effect s who (accept_offer id _) w _ _ _ _ own refl)
      (when-Effect s who w (has_suffix (trim_prefix r.path "/v1/ride-offers/") "/decline") _ _
        (for_user-Effect s who w _ _
          λ id own. answer-Effect s who (decline_offer id _) w _ _ _ _ own refl)
        (quiet refl))

booking_transition-Acts : Acts booking_transition
unfolding booking_transition acts_as perform
booking_transition-Acts s who r w = for_user-Effect s who w _ _ λ id own.
    when-Effect s who w (not (has_suffix (trim_prefix r.path "/v1/bookings/") "/state")) _ _
      (quiet refl)
      (for_body-Effect s who w _ _
        λ state. answer-Effect s who (move_booking id _ state) w _ _ _ _ own refl)

review_create-Acts : Acts review_create
unfolding review_create acts_as perform
review_create-Acts s who r w =
    when-Effect s who w (not (has_suffix r.path "/reviews")) _ _ (quiet refl) (
      for_user-Effect s who w _ _ λ id own. for_body-Effect s who w _ _ λ (body : ReviewBody).
        answer-Effect s who (review _ id body.rating body.comment) w _ _ _ _ own refl)

pub booking_actions-Acts : Acts booking_actions
unfolding booking_actions
booking_actions-Acts s who r w =
    when-Effect s who w (has_suffix (trim_prefix r.path "/v1/bookings/") "/state") _ _
      (booking_transition-Acts s who r w)
      (when-Effect s who w (has_suffix (trim_prefix r.path "/v1/bookings/") "/reviews") _ _
        (review_create-Acts s who r w) (quiet refl))
