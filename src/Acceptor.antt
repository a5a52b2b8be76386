-- ===== src/Acceptor.antt =====
-- internal/infrastructure/postgres/offer_acceptor.go: acceptance in one database transaction. The
-- rows that it reads and writes are those of the same tables; `FOR UPDATE` holds them for the
-- transaction, so the transaction is one step. A statement may fail; then, and on any other
-- error, the deferred rollback leaves the tables as they were. What the database checks by itself
-- is the primary key of a new booking.
use smallworld_be.Prelude.{ℕ, String, Bool, true, false, not, Option, none, some, if◌then◌else◌}
use smallworld_be.Prelude.Int.{pos, leb_ℤ}
use smallworld_be.Prelude.Table.{get}
use smallworld_be.Domain.States.{RideOfferState, offer_text}
use smallworld_be.Domain.Models.{Time, RideBooking}
use smallworld_be.Domain.Errors.{Result, ok, err, capacity_exceeded, external}
use smallworld_be.Domain.Policies.{offer_can_transition, require_transition}
use smallworld_be.World.{World, Store, Database}
use smallworld_be.World.Exec.{Exec, pure, lift, require, ◌>>=◌, ◌>>◌}
use smallworld_be.World.Calls.{answer}
use smallworld_be.Memory.{
  find_offer, find_session, find_demand, find_vehicle, save_offer, save_session, save_demand,
  save_booking,
}
use smallworld_be.Services.Offers.Booking.{new_booking, take_seat, accepted_offer, matched_demand}

abbrev statement : Database → ℕ → Exec (Unit {0})
statement db n w = (answer (db.failure w.outbox n), w)

abbrev is_none {ℓ} : {A : Type ℓ} → Option A → Bool
is_none none = true
is_none (some _) = false

-- INSERT INTO ride_bookings
abbrev insert_booking : RideBooking → Exec (Unit {0})
insert_booking b w =
    if is_none (get b.id w.ride_bookings)
    then save_booking b w
    else (err (external "insert ride booking: duplicate key"), w)

unfoldable pub accept_rows : Database → String → String → Time → Exec RideBooking
accept_rows db offer_id booking_id t = do
  statement db 0
  statement db 1
  offer ← find_offer offer_id
  lift (
      require_transition "ride_offer" (offer_text offer.state)
        (offer_can_transition offer.state RideOfferState.accepted)
        (offer_text RideOfferState.accepted))
  statement db 2
  session ← find_session offer.driver_session_id
  require (not (leb_ℤ session.remaining_capacity (pos 0))) capacity_exceeded
  statement db 3
  demand ← find_demand offer.demand_id
  statement db 4
  vehicle ← find_vehicle session.vehicle_id
  statement db 5
  save_offer (accepted_offer offer t)
  let booking = new_booking booking_id offer session demand vehicle t t
  statement db 6
  insert_booking booking
  statement db 7
  save_session (take_seat session t)
  statement db 8
  save_demand (matched_demand demand t)
  statement db 9
  pure booking

-- A transaction that ends in an error is rolled back.
abbrev pub settle {ℓ} : {A : Type ℓ} → Store → Result A × World → Result A × World
settle before (ok a, w) = (ok a, w)
settle before (err e, w) = (err e, record w { store = before })

unfoldable pub accept_offer : Database → String → String → Time → Exec RideBooking
unfolding accept_rows
accept_offer db offer_id booking_id t w = settle w.store (accept_rows db offer_id booking_id t w)
