-- ===== src/Services/Sessions.antt =====
-- internal/application/service/driver_session_service.go. The service is wired with the bookings
-- (internal/application/app.go), so the test of `bookings` against nil always passes.
pub mod Updates
pub mod Replay
pub mod Moves
use smallworld_be.Prelude.{
  String, ◌==◌, Bool, true, false, not, ◌&&◌, Option, none, some, List, [], ◌∷◌, if◌then◌else◌,
}
use smallworld_be.Prelude.Int.{ℤ, pos, ◌-ℤ◌, ltb_ℤ, leb_ℤ}
use smallworld_be.Domain.States.{DriverSessionState, session_text}
use smallworld_be.Domain.Models.{
  Time, Duration, Location, IdentityVerification, DriverSession, RideBooking, Vehicle,
}
use smallworld_be.Domain.Errors.{
  Error, Result, ok, err, unauthorized, idempotency_conflict, verification_required,
  vehicle_required,
}
use smallworld_be.Domain.Policies.{
  allows_driver_tracking, driver_eligible, is_verified, session_can_transition, require_transition,
}
use smallworld_be.World.{World, Payload, IdempotencyRecord, RoutePlan}
use smallworld_be.World.Exec.{Exec, pure, fail, lift, found, require, ◌>>=◌, ◌>>◌}
use smallworld_be.World.Calls.{now, next_id, publish, presence_save, presence_delete}
use smallworld_be.Memory.{
  find_session, save_session, list_active, find_current_session, list_by_session, find_result,
  save_result, find_verification, list_vehicles, find_vehicle, is_ended,
}
use smallworld_be.Services.Inputs.{
  StartDriverSessionInput, HeartbeatDriverSessionInput, TransitionDriverSessionStateInput,
}
use smallworld_be.Services.Bookings.{tracking_of}

-- foundation.HashString(string(payload))
abbrev pub payload_hash : StartDriverSessionInput → World → String
payload_hash input w = w.hash_string (w.marshal_start input)

-- if !domain.DriverEligible(…) { … }
abbrev check_driver : IdentityVerification → List Vehicle → Exec (Unit {0})
check_driver v vehicles w =
    if driver_eligible v vehicles
    then (ok tt, w)
    else if is_verified v
    then (err vehicle_required, w)
    else (err verification_required, w)

unfoldable pub new_session :
    String → StartDriverSessionInput → Vehicle → RoutePlan → Time → Time → Time → DriverSession
new_session id input vehicle route heartbeat created updated = record {
  id = id;
  driver_id = input.user_id;
  vehicle_id = input.vehicle_id;
  state = DriverSessionState.active;
  origin = input.origin;
  destination = input.destination;
  current_location = input.current_location;
  remaining_capacity = vehicle.capacity;
  max_driver_pickup_detour_meters = input.max_driver_pickup_detour_meters;
  route_distance_meters = route.distance_meters;
  route_duration_seconds = route.duration_seconds;
  route_polyline = route.polyline;
  last_heartbeat_at = heartbeat;
  created_at = created;
  updated_at = updated;
}

-- if input.IdempotencyKey != "" { … SaveResult(…) … }
abbrev pub remember : String → String → String → Exec (Unit {0})
remember key resource_id hash w =
    if key == "" then (ok tt, w) else save_result key resource_id hash w

-- `Start` from the lookup of the verification on.
unfoldable pub start_new : StartDriverSessionInput → Exec DriverSession
start_new input = do
  verification ← find_verification input.user_id
  vehicles ← list_vehicles input.user_id
  check_driver verification vehicles
  vehicle ← find_vehicle input.vehicle_id
  route ← (λ w. (w.routing.route input.origin input.destination, w))
  id ← next_id "ds"
  heartbeat ← now
  created ← now
  updated ← now
  let session = new_session id input vehicle route heartbeat created updated
  save_session session
  hash ← (λ w. (ok (payload_hash input w), w))
  remember input.idempotency_key session.id hash
  presence_save session
  pure session

abbrev replay_session : String → IdempotencyRecord → Exec DriverSession
replay_session hash known w =
    if known.payload_hash == hash
    then find_session known.resource_id w
    else (err idempotency_conflict, w)

-- What an idempotency key is found to hold, if the request has one. Any error of `FindResult` counts
-- as a key that holds nothing, as the source's `err == nil` has it: absence, which is the only error
-- of the memory store, as well as any other.
abbrev pub known_result : String → World → Option IdempotencyRecord
known_result key w = if key == "" then none else found (find_result key w).0

unfoldable pub start_or_replay :
    Option IdempotencyRecord → StartDriverSessionInput → Exec DriverSession
unfolding start_new
start_or_replay none input = start_new input
start_or_replay (some known) input = λ w. replay_session (payload_hash input w) known w

unfoldable pub start : StartDriverSessionInput → Exec DriverSession
unfolding start_or_replay
start input w = start_or_replay (known_result input.idempotency_key w) input w
