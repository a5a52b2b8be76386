-- ===== src/Ledger/Refines/Start.antt =====
-- `Start` of driver_session_service.go.
use smallworld_be.Prelude.{suc, ◌≡◌, refl, ◌⊎◌, Option, none, some, arith, inl, inr, Option-cases}
use smallworld_be.Prelude.Table.{get, put}
use smallworld_be.Domain.States.{DriverSessionState}
use smallworld_be.Domain.Models.{DriverSession, Vehicle}
use smallworld_be.Domain.Errors.{Result-cases, ok}
use smallworld_be.World.{World, Store, RoutePlan, IdempotencyRecord}
use smallworld_be.World.Calls.{presence_save}
use smallworld_be.Memory.{list_vehicles}
use smallworld_be.Services.Inputs.{StartDriverSessionInput}
use smallworld_be.Services.Sessions.{start, start_new, start_or_replay, new_session, known_result}
use smallworld_be.Ledger.{Steps, Step, next}
use smallworld_be.Ledger.Refines.{Steps-of_eq, Steps-of_step}

-- Two steps: the new session, and what concerns no ride (the idempotency key).
added_and_aside :
    (s s' : Store) (d : DriverSession)
    → get d.id s.driver_sessions ≡ none
    → d.state ≡ DriverSessionState.active
    → s'.driver_sessions ≡ put d.id d s.driver_sessions
    → s'.trip_demands ≡ s.trip_demands
    → s'.ride_offers ≡ s.ride_offers
    → s'.ride_bookings ≡ s.ride_bookings
    → Steps s s'
added_and_aside s s' d f a e1 e2 e3 e4 =
    let u : Store = record s { driver_sessions = put d.id d s.driver_sessions } in
    let first : Steps s u = Steps-of_step (Step.start_session d f a refl) in
    next first (Step.aside e1 e2 e3 e4)

-- The new session, from the vehicle and the route that are found.
abbrev started : StartDriverSessionInput → World → Vehicle → RoutePlan → DriverSession
started i w v route =
    new_session (w.new_id w.seq "ds") i v route (w.clock w.ticks) (w.clock (suc w.ticks))
      (w.clock (suc (suc w.ticks)))

-- Nothing is written, or a new session and perhaps an idempotency key.
abbrev Writes : World → DriverSession → World → Type 0
Writes w d w' =
    (w'.store ≡ w.store)
    ⊎ ((w'.driver_sessions ≡ put d.id d w.driver_sessions)
        × (w'.trip_demands ≡ w.trip_demands)
        × (w'.ride_offers ≡ w.ride_offers)
        × (w'.ride_bookings ≡ w.ride_bookings))

start_new-Writes :
    (i : StartDriverSessionInput) (w : World) (v : Vehicle) (route : RoutePlan)
    → get i.vehicle_id w.vehicles ≡ some v
    → w.routing.route i.origin i.destination ≡ ok route
    → Writes w (started i w v route) (start_new i w).1
unfolding start_new presence_save new_session list_vehicles
start_new-Writes i w v route hv hr = ground arith

start_new-Steps :
    (i : StartDriverSessionInput) (w : World)
    → get (w.new_id w.seq "ds") w.driver_sessions ≡ none
    → Steps w.store (start_new i w).1.store
unfolding start_new new_session list_vehicles
start_new-Steps i w f = elim (Option-cases (get i.vehicle_id w.vehicles)) [
  | inl e ↦ Steps-of_eq (ground arith)
  | inr (v, hv) ↦ elim (Result-cases (w.routing.route i.origin i.destination)) [
    | inr (x, e) ↦ Steps-of_eq (ground arith)
    | inl (route, hr) ↦ elim (start_new-Writes i w v route hv hr) [
      | inl e ↦ Steps-of_eq e
      | inr (a, b, c, e) ↦
          added_and_aside w.store (start_new i w).1.store (started i w v route) f refl a b c e
    ]
  ]
]

start_or_replay-Steps :
    (known : Option IdempotencyRecord) (i : StartDriverSessionInput) (w : World)
    → get (w.new_id w.seq "ds") w.driver_sessions ≡ none
    → Steps w.store (start_or_replay known i w).1.store
unfolding start_or_replay
start_or_replay-Steps none i w f = start_new-Steps i w f
start_or_replay-Steps (some r) i w f = Steps-of_eq (ground arith)

pub start-Steps :
    (i : StartDriverSessionInput) (w : World)
    → get (w.new_id w.seq "ds") w.driver_sessions ≡ none
    → Steps w.store (start i w).1.store
unfolding start
start-Steps i w f = start_or_replay-Steps (known_result i.idempotency_key w) i w f
