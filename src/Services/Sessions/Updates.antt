-- ===== src/Services/Sessions/Updates.antt =====
-- The methods of internal/application/service/driver_session_service.go for a session that exists.
use smallworld_be.Prelude.{String, ◌==◌, Bool, true, false, ◌&&◌, List, [], ◌∷◌, if◌then◌else◌}
use smallworld_be.Prelude.Int.{pos, ◌-ℤ◌, ltb_ℤ, leb_ℤ}
use smallworld_be.Domain.States.{DriverSessionState, session_text}
use smallworld_be.Domain.Models.{Time, Duration, Location, DriverSession, RideBooking}
use smallworld_be.Domain.Errors.{ok, unauthorized}
use smallworld_be.Domain.Policies.{
  allows_driver_tracking, session_can_transition, require_transition,
}
use smallworld_be.World.{Payload}
use smallworld_be.World.Exec.{Exec, pure, lift, require, ◌>>=◌, ◌>>◌}
use smallworld_be.World.Calls.{now, publish, presence_save, presence_delete}
use smallworld_be.Memory.{
  find_session, save_session, list_active, find_current_session, list_by_session, is_ended,
}
use smallworld_be.Services.Inputs.{HeartbeatDriverSessionInput, TransitionDriverSessionStateInput}
use smallworld_be.Services.Bookings.{tracking_of}

-- if !booking.AllowsDriverTracking() { continue }; …
abbrev tell_rider : DriverSession → RideBooking → Exec (Unit {0})
tell_rider session b w =
    if allows_driver_tracking b.state
    then publish b.rider_id "driver_tracking.updated" (Payload.tracking (tracking_of b session)) w
    else (ok tt, w)

-- The loop of `publishDriverTrackingUpdates`.
unfoldable pub publish_tracking : DriverSession → List RideBooking → Exec (Unit {0})
publish_tracking session [] = pure tt
publish_tracking session (b ∷ bs) = tell_rider session b >> publish_tracking session bs

unfoldable pub publish_driver_tracking_updates : DriverSession → Exec (Unit {0})
unfolding publish_tracking list_by_session
publish_driver_tracking_updates session w =
    if w.has_realtime
    then (list_by_session session.id >>= publish_tracking session) w
    else (ok tt, w)

unfoldable pub beaten : DriverSession → Location → Time → DriverSession
beaten s location t = record s {
  current_location = location;
  last_heartbeat_at = t;
  updated_at = t;
}

unfoldable pub heartbeat : HeartbeatDriverSessionInput → Exec DriverSession
unfolding beaten
heartbeat input = do
  session ← find_session input.session_id
  t ← now
  let session' = beaten session input.current_location t
  save_session session'
  presence_save session'
  publish_driver_tracking_updates session'
  pure session'

unfoldable pub heartbeat_owned : String → HeartbeatDriverSessionInput → Exec DriverSession
unfolding heartbeat
heartbeat_owned actor input = do
  session ← find_session input.session_id
  require (session.driver_id == actor) unauthorized
  heartbeat input

abbrev pub is_active : DriverSessionState → Bool
is_active DriverSessionState.active = true
is_active _ = false

-- A session that is to become active with no seat left becomes full.
unfoldable pub moved_session : DriverSession → DriverSessionState → Time → DriverSession
moved_session s next t =
    let state' =
      if is_active next && leb_ℤ s.remaining_capacity (pos 0)
      then DriverSessionState.full
      else next in
    record s { state = state'; updated_at = t }

-- if session.State == Ended { DeleteSession } else { SaveSession }
abbrev presence_update : DriverSession → Exec (Unit {0})
presence_update s w = if is_ended s.state then presence_delete s.id w else presence_save s w

unfoldable pub transition_state : TransitionDriverSessionStateInput → Exec DriverSession
unfolding moved_session
transition_state input = do
  session ← find_session input.session_id
  lift (
      require_transition "driver_session" (session_text session.state)
        (session_can_transition session.state input.state) (session_text input.state))
  t ← now
  let session' = moved_session session input.state t
  save_session session'
  presence_update session'
  pure session'

unfoldable pub transition_state_owned :
    String → TransitionDriverSessionStateInput → Exec DriverSession
unfolding transition_state
transition_state_owned actor input = do
  session ← find_session input.session_id
  require (session.driver_id == actor) unauthorized
  transition_state input

unfoldable pub get_owned : String → String → Exec DriverSession
get_owned actor id = do
  session ← find_session id
  require (session.driver_id == actor) unauthorized
  pure session

unfoldable pub get_current_for_driver : String → Exec DriverSession
unfolding find_current_session
get_current_for_driver actor = find_current_session actor

unfoldable pub paused_session : DriverSession → Time → DriverSession
paused_session s t = record s { state = DriverSessionState.paused; updated_at = t }

-- The body of the loop for a stale session.
unfoldable pub pause_session : DriverSession → Exec DriverSession
unfolding paused_session
pause_session s = do
  t ← now
  save_session (paused_session s t)
  presence_delete s.id
  pure (paused_session s t)

-- The loop of `ReconcileStaleSessions`; the result holds the sessions that it paused, in order.
unfoldable pub pause_stale : Time → List DriverSession → Exec (List DriverSession)
unfolding pause_session
pause_stale cutoff [] w = (ok [], w)
pause_stale cutoff (s ∷ ss) w =
    let pause : Exec (List DriverSession) = do
      p ← pause_session s
      rest ← pause_stale cutoff ss
      pure (p ∷ rest)
    in let paused = pause w in
      let skipped = pause_stale cutoff ss w in
      if ltb_ℤ s.last_heartbeat_at cutoff then paused else skipped

unfoldable pub reconcile_stale_sessions : Duration → Exec (List DriverSession)
unfolding pause_stale list_active ◌-ℤ◌
reconcile_stale_sessions max_staleness w =
    let reconcile : Exec (List DriverSession) = do
      sessions ← list_active
      t ← now
      pause_stale (t -ℤ max_staleness) sessions
    in if leb_ℤ max_staleness (pos 0) then (ok [], w) else reconcile w
