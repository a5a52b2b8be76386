-- ===== src/Services/Offers/Atomic.antt =====
-- What a failed `Accept` or `Decline` of offer_service.go leaves behind, and who may call them.
use smallworld_be.Prelude.{
  suc, String, ◌≡◌, ◌⊎◌, inl, inr, Option, none, some, arith, eq_iff, Option-cases,
}
use smallworld_be.Prelude.Table.{get, put}
use smallworld_be.Domain.States.{RideOfferState}
use smallworld_be.Domain.Models.{Time, DriverSession, RideOffer, RideBooking}
use smallworld_be.Domain.Errors.{Error, ok, err, Result-cases}
use smallworld_be.Domain.Policies.{offer_can_transition, require_transition}
use smallworld_be.World.{World, Database}
use smallworld_be.World.Calls.{ephemeral_delete}
use smallworld_be.Acceptor.{accept_offer}
use smallworld_be.Services.Offers.{accept, accept_with, accept_by, accept_locked, decline}

accept_locked-error :
    (actor id : String) (w : World) (e : Error)
    → (accept_locked actor id w).0 ≡ err e
    → (accept_locked actor id w).1.store ≡ w.store
unfolding accept_locked require_transition
accept_locked-error actor id w e h = ground arith

-- A transaction that does not return a booking writes nothing.
accept_offer-error :
    (db : Database) (id booking_id : String) (t : Time) (w : World)
    → ((b : RideBooking) × ((accept_offer db id booking_id t w).0 ≡ ok b))
      ⊎ ((accept_offer db id booking_id t w).1.store ≡ w.store)
unfolding accept_offer
accept_offer-error db id booking_id t w =
    elim (Result-cases (accept_offer db id booking_id t w).0) [
      | inl (b, h) ↦ inl (b, h)
      | inr (e, h) ↦ inr (ground arith)
    ]

-- The world in which the transaction runs: an id is drawn and the clock is read before it.
abbrev pub at_transaction : World → World
at_transaction w = record w { seq = suc w.seq; ticks = suc w.ticks }

pub accept_by-error :
    (db : Database) (actor id : String) (w : World) (e : Error)
    → (accept_by db actor id w).0 ≡ err e
    → (accept_by db actor id w).1.store ≡ w.store
unfolding accept_by ephemeral_delete
accept_by-error db actor id w e h = ground (
  arith,
  accept_offer-error db id (w.new_id w.seq "booking") (w.clock w.ticks) (at_transaction w),
)

accept_with-error :
    (acceptor : Option Database) (actor id : String) (w : World) (e : Error)
    → (accept_with acceptor actor id w).0 ≡ err e
    → (accept_with acceptor actor id w).1.store ≡ w.store
unfolding accept_with
accept_with-error none actor id w e h = accept_locked-error actor id w e h
accept_with-error (some db) actor id w e h = accept_by-error db actor id w e h

-- If accepting an offer fails, no table has changed: with an acceptor whichever statement of its
-- transaction fails, and without one over the memory store, whose writes do not fail.
pub accept-error :
    (actor id : String) (w : World) (e : Error)
    → (accept actor id w).0 ≡ err e
    → (accept actor id w).1.store ≡ w.store
unfolding accept
accept-error actor id w e h = accept_with-error w.acceptor actor id w e h

-- What a successful decline found and returned.
pub record Declined (actor id : String) (w : World) (o' : RideOffer) : Type 0 where
  pub offer : RideOffer
  pub session : DriverSession
  pub has_offer : get id w.ride_offers ≡ some offer
  pub has_session : get offer.driver_session_id w.driver_sessions ≡ some session
  pub by_driver : session.driver_id ≡ actor
  pub was_pending : offer.state ≡ RideOfferState.pending
  pub result : o' ≡ record offer { state = RideOfferState.declined; updated_at = w.clock w.ticks }

Declined-decline :
    (actor id : String) (w : World) (o' : RideOffer)
    → (decline actor id w).0 ≡ ok o'
    → Declined actor id w o'
unfolding decline require_transition offer_can_transition
Declined-decline actor id w o' h = elim (Option-cases (get id w.ride_offers)) [
  | inl e ↦ absurd (ground arith)
  | inr (o, ho) ↦ elim (Option-cases (get o.driver_session_id w.driver_sessions)) [
    | inl e ↦ absurd (ground arith)
    | inr (d, hd) ↦ record {
      offer = o;
      session = d;
      has_offer = ho;
      has_session = hd;
      by_driver = ground (arith, eq_iff d.driver_id actor);
      was_pending = ground arith;
      result = ground arith;
    }
  ]
]

decline-store :
    (actor id : String) (w : World) (o' : RideOffer)
    → (decline actor id w).0 ≡ ok o'
    → (decline actor id w).1.store ≡ record w.store { ride_offers = put o'.id o' w.ride_offers }
unfolding decline require_transition ephemeral_delete
decline-store actor id w o' h = ground arith

decline-error :
    (actor id : String) (w : World) (e : Error)
    → (decline actor id w).0 ≡ err e
    → (decline actor id w).1.store ≡ w.store
unfolding decline require_transition
decline-error actor id w e h = ground arith

-- Declining an offer either fails and changes no table, or was asked by the driver of the offer's
-- session while the offer was pending, and then writes that offer back as declined, stamped with
-- the clock, and changes nothing else.
pub decline-cases :
    (actor id : String) (w : World)
    → ((e : Error) × ((decline actor id w).0 ≡ err e) × ((decline actor id w).1.store ≡ w.store))
      ⊎ ((o' : RideOffer) × ((decline actor id w).0 ≡ ok o')
          × Declined actor id w o'
          × ((decline actor id w).1.store
              ≡ record w.store { ride_offers = put o'.id o' w.ride_offers }))
decline-cases actor id w = elim (Result-cases (decline actor id w).0) [
  | inl (o', h) ↦ inr (o', h, Declined-decline actor id w o' h, decline-store actor id w o' h)
  | inr (e, h) ↦ inl (e, h, decline-error actor id w e h)
]
