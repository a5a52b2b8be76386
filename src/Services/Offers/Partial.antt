-- ===== src/Services/Offers/Partial.antt =====
-- What is left of `Accept` of offer_service.go where a `Save` of its repositories fails: without an
-- acceptor there is no transaction to roll back.
use smallworld_be.Prelude.{String, ◌==◌, ◌≡◌, refl, true, false, some, arith}
use smallworld_be.Prelude.Table.{get, put}
use smallworld_be.Domain.Models.{RideOffer, RideBooking}
use smallworld_be.Domain.Errors.{Error, ok, err}
use smallworld_be.Domain.States.{RideOfferState}
use smallworld_be.Prelude.Int.{pos, leb_ℤ}
use smallworld_be.Domain.Policies.{offer_can_transition, require_transition}
use smallworld_be.Ledger.Refines.Offers.{Rows, Rows-accept_locked}
use smallworld_be.World.{World}
use smallworld_be.Services.Offers.{Saves, memory_saves, accept_locked, accept_locked_over}
use smallworld_be.Services.Offers.Booking.{accepted_offer}

-- The memory store's repositories, but that the bookings are not there.
abbrev pub without_bookings : Error → Saves
without_bookings x = record memory_saves { bookings = λ b w. (err x, w) }

-- An offer that is stored as accepted, while no other row of the store is new.
pub record HalfAccepted (id : String) (w w' : World) : Type 0 where
  pub offer : RideOffer
  pub has_offer : get id w.ride_offers ≡ some offer
  pub written : w'.store ≡ record w.store {
    ride_offers = put offer.id (accepted_offer offer (w.clock w.ticks)) w.ride_offers;
  }

-- The guards that an acceptance has passed.
passed :
    (actor id : String) (w : World) (b : RideBooking) (r : Rows id w)
    → (accept_locked actor id w).0 ≡ ok b
    → (offer_can_transition r.offer.state RideOfferState.accepted ≡ true)
      × (leb_ℤ r.session.remaining_capacity (pos 0) ≡ false)
      × ((r.session.driver_id == actor) ≡ true)
unfolding accept_locked require_transition
passed actor id w b r h =
    let ho = r.has_offer in
    let hd = r.has_session in
    let ht = r.has_demand in
    let hv = r.has_vehicle in
    (ground (arith, ho, hd, ht, hv), ground (arith, ho, hd, ht, hv), ground (arith, ho, hd, ht, hv))

half :
    (actor id : String) (w : World) (x : Error) (r : Rows id w)
    → offer_can_transition r.offer.state RideOfferState.accepted ≡ true
    → leb_ℤ r.session.remaining_capacity (pos 0) ≡ false
    → (r.session.driver_id == actor) ≡ true
    → let a = accept_locked_over (without_bookings x) actor id w in
      (a.0 ≡ err x)
      × (a.1.store ≡ record w.store {
        ride_offers = put r.offer.id (accepted_offer r.offer (w.clock w.ticks)) w.ride_offers;
      })
unfolding require_transition accepted_offer
half actor id w x r g0 g1 g2 =
    rw (r.has_offer, g0, r.has_session, g1, g2, r.has_demand, r.has_vehicle) (refl, refl)

-- Where an acceptance without an acceptor would succeed, but the bookings cannot be saved, the call
-- fails with their error and has stored the offer as accepted: no booking is made, the session
-- keeps its seat, the demand stays as it was, and the offer is not put back.
pub accept_locked-HalfAccepted :
    (actor id : String) (w : World) (b : RideBooking) (x : Error)
    → (accept_locked actor id w).0 ≡ ok b
    → ((accept_locked_over (without_bookings x) actor id w).0 ≡ err x)
      × HalfAccepted id w (accept_locked_over (without_bookings x) actor id w).1
accept_locked-HalfAccepted actor id w b x h =
    let r = Rows-accept_locked actor id w b h in
    let g = passed actor id w b r h in
    let a = half actor id w x r g.0 g.1 g.2 in
    (a.0, record { offer = r.offer; has_offer = r.has_offer; written = a.1 })
