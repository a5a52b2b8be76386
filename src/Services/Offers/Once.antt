-- ===== src/Services/Offers/Once.antt =====
-- An offer is answered once: what later calls of offer_service.go do with one that is not pending.
use smallworld_be.Prelude.{String, ◌≡◌, inl, inr, Option, none, some, arith}
use smallworld_be.Prelude.Table.{get}
use smallworld_be.Domain.States.{RideOfferState}
use smallworld_be.Domain.Models.{Time, RideOffer, RideBooking}
use smallworld_be.Domain.Errors.{Error, Result, ok, err, Result-cases}
use smallworld_be.Domain.Policies.{offer_can_transition, require_transition}
use smallworld_be.World.{World, Database}
use smallworld_be.Prelude.{◌≢◌}
use smallworld_be.Acceptor.{accept_offer, accept_rows}
use smallworld_be.Services.Offers.{accept, accept_with, accept_by, accept_locked, decline}
use smallworld_be.Services.Offers.Atomic.{at_transaction, accept_by-error}

-- A call that fails and writes nothing.
abbrev pub Refused : {A : Type 0} → World → Result A × World → Type 0
Refused w (r, w') = ((e : Error) × (r ≡ err e)) × (w'.store ≡ w.store)

accept_locked-cases :
    (actor id : String) (o : RideOffer) (w : World)
    → get id w.ride_offers ≡ some o
    → o.state ≢ RideOfferState.pending
    → Refused w (accept_locked actor id w)
unfolding accept_locked require_transition offer_can_transition
accept_locked-cases actor id o w h n = elim (Result-cases (accept_locked actor id w).0) [
  | inl (b, r) ↦ absurd (ground arith)
  | inr (e, r) ↦ ((e, r), ground arith)
]

accept_offer-pending :
    (db : Database) (id booking_id : String) (t : Time) (o : RideOffer) (w : World)
    (b : RideBooking)
    → get id w.ride_offers ≡ some o
    → (accept_offer db id booking_id t w).0 ≡ ok b
    → o.state ≡ RideOfferState.pending
unfolding accept_offer accept_rows require_transition offer_can_transition
accept_offer-pending db id booking_id t o w b h r = ground arith

accept_by-made :
    (db : Database) (actor id : String) (w : World) (b : RideBooking)
    → (accept_by db actor id w).0 ≡ ok b
    → (accept_offer db id (w.new_id w.seq "booking") (w.clock w.ticks) (at_transaction w)).0 ≡ ok b
unfolding accept_by
accept_by-made db actor id w b h = ground arith

accept_by-cases :
    (db : Database) (actor id : String) (o : RideOffer) (w : World)
    → get id w.ride_offers ≡ some o
    → o.state ≢ RideOfferState.pending
    → Refused w (accept_by db actor id w)
accept_by-cases db actor id o w h n = elim (Result-cases (accept_by db actor id w).0) [
  | inl (b, r) ↦ absurd (
      n (
        accept_offer-pending db id _ _ o (at_transaction w) b h (accept_by-made db actor id w b r)))
  | inr (e, r) ↦ ((e, r), accept_by-error db actor id w e r)
]

accept_with-cases :
    (acceptor : Option Database) (actor id : String) (o : RideOffer) (w : World)
    → get id w.ride_offers ≡ some o
    → o.state ≢ RideOfferState.pending
    → Refused w (accept_with acceptor actor id w)
unfolding accept_with
accept_with-cases none actor id o w h n = accept_locked-cases actor id o w h n
accept_with-cases (some db) actor id o w h n = accept_by-cases db actor id o w h n

decline-Refused :
    (actor id : String) (o : RideOffer) (w : World)
    → get id w.ride_offers ≡ some o
    → o.state ≢ RideOfferState.pending
    → Refused w (decline actor id w)
unfolding decline require_transition offer_can_transition
decline-Refused actor id o w h n = elim (Result-cases (decline actor id w).0) [
  | inl (b, r) ↦ absurd (ground arith)
  | inr (e, r) ↦ ((e, r), ground arith)
]

-- For an offer that is no longer pending, both accepting and declining fail and change no table,
-- whoever asks and whether or not there is a database.
pub answered-Refused :
    (actor id : String) (o : RideOffer) (w : World)
    → get id w.ride_offers ≡ some o
    → o.state ≢ RideOfferState.pending
    → Refused w (accept actor id w) × Refused w (decline actor id w)
unfolding accept
answered-Refused actor id o w h n =
    (accept_with-cases w.acceptor actor id o w h n, decline-Refused actor id o w h n)
