-- ===== src/Reconciler.antt =====
-- internal/background/presence/reconciler.go.
use smallworld_be.Prelude.{List, [], ◌∷◌, if◌then◌else◌}
use smallworld_be.Domain.Models.{Duration, DriverSession}
use smallworld_be.Domain.Errors.{ok}
use smallworld_be.World.{Payload}
use smallworld_be.World.Exec.{Exec, pure, ◌>>=◌, ◌>>◌}
use smallworld_be.World.Calls.{publish}
use smallworld_be.Services.Sessions.Updates.{reconcile_stale_sessions}

abbrev tell_driver : DriverSession → Exec (Unit {0})
tell_driver s w =
    if w.has_realtime
    then publish s.driver_id "driver_session.paused" (Payload.session s) w
    else (ok tt, w)

unfoldable pub tell_drivers : List DriverSession → Exec (Unit {0})
tell_drivers [] = pure tt
tell_drivers (s ∷ ss) = tell_driver s >> tell_drivers ss

unfoldable pub reconcile_once : Duration → Exec (Unit {0})
unfolding reconcile_stale_sessions tell_drivers
reconcile_once max_staleness = do
  paused ← reconcile_stale_sessions max_staleness
  tell_drivers paused
