-- ===== src/Ledger/Races.antt =====
-- A heartbeat of driver_session_service.go beside other requests. `Heartbeat` reads the session and
-- saves all of it later, without a lock or a transaction, so another request may come in between.
pub mod Sweeps
use text.Mathlib.TextPositions.{eq_refl}
use smallworld_be.Prelude.{◌≡◌, refl, some, ◌<◌, arith}
use smallworld_be.Prelude.Int.{pos, ◌<ℤ◌, +ℤ_parts}
use smallworld_be.Prelude.Table.{get, put, get-put}
use smallworld_be.Domain.Models.{DriverSession}
use smallworld_be.Domain.Errors.{Result}
use smallworld_be.World.{World}
use smallworld_be.World.Exec.{Exec, continue, pure, ◌>>=◌, ◌>>◌}
use smallworld_be.World.Calls.{now, presence_save}
use smallworld_be.Memory.{find_session, save_session}
use smallworld_be.Services.Inputs.{HeartbeatDriverSessionInput}
use smallworld_be.Services.Sessions.Updates.{heartbeat, beaten, publish_driver_tracking_updates}
use smallworld_be.Ledger.Seats.{seats, booked}
use smallworld_be.Ledger.Refines.Sessions.{publish_driver_tracking_updates-store, after_beat}

-- What `Heartbeat` does after it has read the session.
unfoldable pub finish_beat : HeartbeatDriverSessionInput → DriverSession → Exec DriverSession
unfolding beaten presence_save
finish_beat input session = do
  t ← now
  let session' = beaten session input.current_location t
  save_session session'
  presence_save session'
  publish_driver_tracking_updates session'
  pure session'

-- A heartbeat that reads its session in the world `w` and goes on in the world `u`.
unfoldable pub raced_heartbeat :
    HeartbeatDriverSessionInput → World → World → Result DriverSession × World
unfolding finish_beat
raced_heartbeat input w u = continue (find_session input.session_id w).0 (finish_beat input) u

heartbeat-raced_heartbeat :
    (input : HeartbeatDriverSessionInput) (w : World)
    → raced_heartbeat input w w ≡ heartbeat input w
unfolding heartbeat raced_heartbeat
heartbeat-raced_heartbeat input w = refl

finish_beat-store :
    (input : HeartbeatDriverSessionInput) (d : DriverSession) (u : World)
    → (finish_beat input d u).1.store ≡ record u.store {
      driver_sessions =
          put d.id (beaten d input.current_location (u.clock u.ticks)) u.driver_sessions;
    }
unfolding finish_beat beaten presence_save
finish_beat-store input d u =
    let d' = beaten d input.current_location (u.clock u.ticks) in
    ground (arith, publish_driver_tracking_updates-store d' (presence_save d' (after_beat d' u)).1)

raced_seats :
    (input : HeartbeatDriverSessionInput) (d : DriverSession) (w u : World)
    → booked d.id w.ride_bookings < booked d.id u.ride_bookings
    → let d' = beaten d input.current_location (u.clock u.ticks) in
      let s' = record u.store { driver_sessions = put d.id d' u.driver_sessions } in
      (d'' : DriverSession) × (get d.id s'.driver_sessions ≡ some d'')
      × (d''.remaining_capacity ≡ d.remaining_capacity)
      × (seats d.id d w.store <ℤ seats d.id d'' s')
unfolding beaten seats
raced_seats input d w u n =
    let d' = beaten d input.current_location (u.clock u.ticks) in
    (
      d',
      ground (arith, get-put d.id d.id d' u.driver_sessions, eq_refl d.id),
      refl,
      omega (
        arith,
        +ℤ_parts d.remaining_capacity (pos (booked d.id w.ride_bookings)),
        +ℤ_parts d.remaining_capacity (pos (booked d.id u.ride_bookings)),
      ),
    )

-- A heartbeat that reads its session in one world and saves it in a later one, where the session
-- has more bookings, brings back the seats left that it has read, so that the seats left and booked
-- together have become more. With nothing in between it is the heartbeat of the service.
pub raced_heartbeat-seats :
    (input : HeartbeatDriverSessionInput) (d : DriverSession) (w u : World)
    → get input.session_id w.driver_sessions ≡ some d
    → d.id ≡ input.session_id
    → booked d.id w.ride_bookings < booked d.id u.ride_bookings
    → (raced_heartbeat input w w ≡ heartbeat input w)
      × ((d' : DriverSession) × (get d.id (raced_heartbeat input w u).1.driver_sessions ≡ some d')
          × (d'.remaining_capacity ≡ d.remaining_capacity)
          × (seats d.id d w.store <ℤ seats d.id d' (raced_heartbeat input w u).1.store))
unfolding raced_heartbeat
raced_heartbeat-seats input d w u g k n = (
  heartbeat-raced_heartbeat input w,
  rw (g, finish_beat-store input d u) (raced_seats input d w u n),
)
