-- ===== src/Postgres/Demands.antt =====
-- TripDemands of internal/infrastructure/postgres/repositories.go, and helpers.go.
use smallworld_be.Prelude.{String, ◌==◌, Bool, true, false, ◌&&◌, Option, none, some}
use smallworld_be.Prelude.Int.{ltb_ℤ}
use smallworld_be.Prelude.Lists.{select}
use smallworld_be.Prelude.Sort.{sort}
use smallworld_be.Prelude.Table.{get, values}
use smallworld_be.Domain.States.{TripDemandState}
use smallworld_be.Domain.Models.{Location, TripDemand}
use smallworld_be.Domain.Errors.{demand_not_found}
use smallworld_be.World.Exec.{Exec, or_fail}
use smallworld_be.Memory.{set_store, first_or}
use smallworld_be.Postgres.{Pool, statement, upsert}

-- CASE WHEN … IS NULL … THEN NULL ELSE … END, read again by `scanNullableLocation`.
abbrev kept_point : Pool → Option Location → Option Location
kept_point p none = none
kept_point p (some l) = some (p.point l)

unfoldable pub demand_row : Pool → TripDemand → TripDemand
demand_row p d = record d {
  requested_origin = p.point d.requested_origin;
  requested_destination = p.point d.requested_destination;
  matched_pickup = kept_point p d.matched_pickup;
  matched_dropoff = kept_point p d.matched_dropoff;
  created_at = p.time d.created_at;
  updated_at = p.time d.updated_at;
}

unfoldable pub save_demand : Pool → TripDemand → Exec (Unit {0})
unfolding demand_row upsert statement
save_demand p d = statement p "save trip demand" λ w.
    set_store
      (record w.store {
        trip_demands =
            upsert (λ old new. record new { created_at = old.created_at }) d.id (demand_row p d)
              w.trip_demands;
      })
      w

unfoldable pub find_demand : Pool → String → Exec TripDemand
unfolding statement
find_demand p id =
    statement p "scan trip demand" λ w. (or_fail (get id w.trip_demands) demand_not_found, w)

-- state IN ('searching', 'offered')
unfoldable pub is_open : TripDemandState → Bool
is_open TripDemandState.searching = true
is_open TripDemandState.offered = true
is_open _ = false

-- ORDER BY updated_at DESC
unfoldable pub demand_before : TripDemand → TripDemand → Bool
demand_before a b = ltb_ℤ b.updated_at a.updated_at

-- LIMIT 1
unfoldable pub find_active_demand : Pool → String → Exec TripDemand
unfolding is_open demand_before sort statement
find_active_demand p rider_id = statement p "scan trip demand" λ w. (
  first_or demand_not_found (
      sort demand_before
        (select (λ d. d.rider_id == rider_id && is_open d.state) (values w.trip_demands))),
  w,
)
