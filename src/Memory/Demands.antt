-- ===== src/Memory/Demands.antt =====
-- Trip demands of internal/infrastructure/memory/repositories.go.
use smallworld_be.Prelude.{String, ◌==◌, Bool, true, false, ◌&&◌}
use smallworld_be.Prelude.Lists.{select}
use smallworld_be.Prelude.Table.{get, put, values}
use smallworld_be.Domain.States.{TripDemandState}
use smallworld_be.Domain.Models.{TripDemand}
use smallworld_be.Domain.Errors.{demand_not_found}
use smallworld_be.World.Exec.{Exec, or_fail}
use smallworld_be.Memory.Common.{set_store, first_or}

abbrev pub save_demand : TripDemand → Exec (Unit {0})
save_demand d w = set_store (record w.store { trip_demands = put d.id d w.trip_demands }) w

abbrev pub find_demand : String → Exec TripDemand
find_demand id w = (or_fail (get id w.trip_demands) demand_not_found, w)

abbrev pub is_open_demand : TripDemandState → Bool
is_open_demand TripDemandState.searching = true
is_open_demand TripDemandState.offered = true
is_open_demand _ = false

unfoldable pub find_active_demand : String → Exec TripDemand
find_active_demand rider_id w = (
  first_or demand_not_found
      (select (λ d. d.rider_id == rider_id && is_open_demand d.state) (values w.trip_demands)),
  w,
)
