-- ===== src/Services/Offers/Transaction.antt =====
-- The two branches of `Accept` in offer_service.go compared.
use smallworld_be.Prelude.{suc, String, ◌≡◌, inl, inr, Option, none, some, arith}
use smallworld_be.Prelude.Int.{pos}
use smallworld_be.Prelude.Table.{get}
use smallworld_be.Domain.Models.{Time, RideBooking}
use smallworld_be.Domain.Errors.{Result, ok, err, Result-cases}
use smallworld_be.Domain.Policies.{require_transition}
use smallworld_be.World.{World, Database}
use smallworld_be.Acceptor.{accept_offer, accept_rows}
use smallworld_be.Services.Offers.{accept_by, accept_locked}
use smallworld_be.Services.Offers.Booking.{new_booking}

-- A database whose statements all succeed.
abbrev pub reliable : Database
reliable = record { failure = λ _ _. none }

-- The booking with other times.
abbrev pub timed : RideBooking → Time → RideBooking
timed b t = record b { created_at = t; updated_at = t }

-- Whatever booking the branch under the mutex makes, the transaction makes too.
accept_by-of_locked :
    (actor id : String) (w : World) (b : RideBooking)
    → get (w.new_id w.seq "booking") w.ride_bookings ≡ none
    → (accept_locked actor id w).0 ≡ ok b
    → (accept_by reliable actor id w).0 ≡ ok (timed b (w.clock w.ticks))
unfolding accept_locked accept_by accept_offer accept_rows require_transition new_booking
accept_by-of_locked actor id w b f h = ground arith

accept_locked-of_by :
    (actor id : String) (w : World) (b : RideBooking)
    → (accept_by reliable actor id w).0 ≡ ok b
    → (accept_locked actor id w).0
      ≡ ok (record b {
        created_at = w.clock (suc w.ticks);
        updated_at = w.clock (suc (suc w.ticks));
      })
unfolding accept_locked accept_by accept_offer accept_rows require_transition new_booking
accept_locked-of_by actor id w b h = ground arith

-- What comes of an acceptance: the booking without its times, or no booking.
abbrev pub untimed : Result RideBooking → Option RideBooking
untimed (ok b) = some (timed b (pos 0))
untimed (err e) = none

-- With a fresh booking id, the branch under the mutex makes a booking exactly when the transaction
-- on a database without failures makes one, and the two bookings differ in their times only.
pub accept_by-accept_locked :
    (actor id : String) (w : World)
    → get (w.new_id w.seq "booking") w.ride_bookings ≡ none
    → untimed (accept_by reliable actor id w).0 ≡ untimed (accept_locked actor id w).0
accept_by-accept_locked actor id w f = elim (Result-cases (accept_locked actor id w).0) [
  | inl (b, h) ↦ ground (arith, accept_by-of_locked actor id w b f h)
  | inr (e, h) ↦ elim (Result-cases (accept_by reliable actor id w).0) [
    | inl (b, h') ↦ absurd (ground (arith, accept_locked-of_by actor id w b h'))
    | inr (e', h') ↦ ground arith
  ]
]
