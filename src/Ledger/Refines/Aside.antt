-- ===== src/Ledger/Refines/Aside.antt =====
-- The operations on users, verifications, vehicles and reviews touch no ride.
use smallworld_be.Prelude.{String, ◌≡◌, arith}
use smallworld_be.Prelude.Int.{ℤ}
use smallworld_be.World.{World, Store}
use smallworld_be.Memory.{find_user_by_auth_subject, list_vehicles}
use smallworld_be.Services.Inputs.{UpsertProfileInput, CreateVehicleInput, DevBootstrapInput}
use smallworld_be.Services.Accounts.{upsert_authenticated, create_vehicle, bootstrap}
use smallworld_be.Services.Reviews.{create_for_actor, other_side, write_review}
use smallworld_be.Ledger.{Steps, Step}
use smallworld_be.Ledger.Refines.{Steps-of_step}

-- The four tables of rides are the same.
pub record SameRides (s s' : Store) : Type 0 where
  pub sessions : s'.driver_sessions ≡ s.driver_sessions
  pub demands : s'.trip_demands ≡ s.trip_demands
  pub offers : s'.ride_offers ≡ s.ride_offers
  pub bookings : s'.ride_bookings ≡ s.ride_bookings

Steps-of_same : {s s' : Store} → SameRides s s' → Steps s s'
Steps-of_same e = Steps-of_step (Step.aside e.sessions e.demands e.offers e.bookings)

create_for_actor-Same :
    (booking_id author : String) (rating : ℤ) (comment : String) (w : World)
    → SameRides w.store (create_for_actor booking_id author rating comment w).1.store
unfolding create_for_actor other_side write_review
create_for_actor-Same b a r c w = ground arith

upsert_authenticated-Same :
    (subject : String) (i : UpsertProfileInput) (w : World)
    → SameRides w.store (upsert_authenticated subject i w).1.store
unfolding upsert_authenticated find_user_by_auth_subject
upsert_authenticated-Same subject i w = ground arith

create_vehicle-Same :
    (i : CreateVehicleInput) (w : World) → SameRides w.store (create_vehicle i w).1.store
unfolding create_vehicle
create_vehicle-Same i w = ground arith

bootstrap-Same : (i : DevBootstrapInput) (w : World) → SameRides w.store (bootstrap i w).1.store
unfolding bootstrap find_user_by_auth_subject list_vehicles
bootstrap-Same i w = ground arith

pub create_for_actor-Steps :
    (booking_id author : String) (rating : ℤ) (comment : String) (w : World)
    → Steps w.store (create_for_actor booking_id author rating comment w).1.store
create_for_actor-Steps b a r c w = Steps-of_same (create_for_actor-Same b a r c w)

pub upsert_authenticated-Steps :
    (subject : String) (i : UpsertProfileInput) (w : World)
    → Steps w.store (upsert_authenticated subject i w).1.store
upsert_authenticated-Steps subject i w = Steps-of_same (upsert_authenticated-Same subject i w)

pub create_vehicle-Steps :
    (i : CreateVehicleInput) (w : World) → Steps w.store (create_vehicle i w).1.store
create_vehicle-Steps i w = Steps-of_same (create_vehicle-Same i w)

pub bootstrap-Steps : (i : DevBootstrapInput) (w : World) → Steps w.store (bootstrap i w).1.store
bootstrap-Steps i w = Steps-of_same (bootstrap-Same i w)
