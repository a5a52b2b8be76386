-- ===== src/Memory/Common.antt =====
-- The store of internal/infrastructure/memory/repositories.go, empty and replaced whole.
use smallworld_be.Prelude.{List, [], ◌∷◌}
use smallworld_be.Prelude.Table.{empty}
use smallworld_be.Domain.Errors.{Error, Result, ok, err}
use smallworld_be.World.{Store}
use smallworld_be.World.Exec.{Exec}

abbrev pub new_store : Store
new_store = record {
  users = empty;
  verifications = empty;
  vehicles = empty;
  driver_sessions = empty;
  trip_demands = empty;
  ride_offers = empty;
  ride_bookings = empty;
  reviews = empty;
  idempotency = empty;
}

abbrev pub set_store : Store → Exec (Unit {0})
set_store s w = (ok tt, record w { store = s })

abbrev pub first_or {ℓ} : {A : Type ℓ} → Error → List A → Result A
first_or e [] = err e
first_or e (x ∷ _) = ok x
