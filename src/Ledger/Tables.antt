-- ===== src/Ledger/Tables.antt =====
-- What a step does to each of the four tables.
use smallworld_be.Prelude.{◌≡◌, refl, sym, subst, true, false, arith}
use smallworld_be.Prelude.Int.{pos, leb_ℤ}
use smallworld_be.Domain.States.{RideOfferState, RideBookingState, DriverSessionState}
use smallworld_be.Domain.Models.{Time, DriverSession, TripDemand, RideOffer, RideBooking}
use smallworld_be.Domain.Policies.{offer_can_transition}
use smallworld_be.World.{Store}
use smallworld_be.Services.Offers.Booking.{accepted_offer, new_booking, take_seat, matched_demand}
use smallworld_be.Ledger.Distinct.{IsDistinct, put-IsDistinct}
use smallworld_be.Ledger.Keys.{Change, same, added, moved, KeyedBy, Change-KeyedBy}
use smallworld_be.Ledger.{
  Step, Steps, here, next, SessionMove, DemandMove, OfferMove, BookingMove, aside, start_session,
  move_session, open_demand, move_demand, make_offer, move_offer, accept, move_booking,
}

-- An acceptance takes a seat; nothing else changes the seats of a session.
pub data SessionChange (d d' : DriverSession) : Type 0 where
  by_move : SessionMove d d' → SessionChange d d'
  by_seat :
      (t : Time)
      → leb_ℤ d.remaining_capacity (pos 0) ≡ false
      → d' ≡ take_seat d t
      → SessionChange d d'

-- An acceptance matches the demand; the other changes follow the demand's state machine.
pub data DemandChange (d d' : TripDemand) : Type 0 where
  by_move : DemandMove d d' → DemandChange d d'
  by_match : (t : Time) → d' ≡ matched_demand d t → DemandChange d d'

abbrev pub SessionsChange : Store → Store → Type 0
SessionsChange s s' =
    Change (λ (d : DriverSession). d.id) (λ d. d.state ≡ DriverSessionState.active) SessionChange
      s.driver_sessions s'.driver_sessions

abbrev pub DemandsChange : Store → Store → Type 0
DemandsChange s s' =
    Change (λ (d : TripDemand). d.id) (λ d. Unit) DemandChange s.trip_demands s'.trip_demands

abbrev pub OffersChange : Store → Store → Type 0
OffersChange s s' =
    Change (λ (o : RideOffer). o.id) (λ o. o.state ≡ RideOfferState.pending) OfferMove s.ride_offers
      s'.ride_offers

abbrev pub BookingsChange : Store → Store → Type 0
BookingsChange s s' =
    Change (λ (b : RideBooking). b.id) (λ b. b.state ≡ RideBookingState.assigned) BookingMove
      s.ride_bookings s'.ride_bookings

accepted-OfferMove :
    (o : RideOffer) (t : Time)
    → offer_can_transition o.state RideOfferState.accepted ≡ true
    → OfferMove o (accepted_offer o t)
unfolding accepted_offer
accepted-OfferMove o t h = record {
  same_id = refl;
  same_demand = refl;
  same_session = refl;
  moves = h;
}

pub offers_change : {s s' : Store} → Step s s' → OffersChange s s'
unfolding accepted_offer
offers_change (aside ds td ro rb) = same ro
offers_change (start_session d f n e) = same (ground arith)
offers_change (move_session d d' g m e) = same (ground arith)
offers_change (open_demand d f e) = same (ground arith)
offers_change (move_demand d d' g m e) = same (ground arith)
offers_change (make_offer o f n e) = added o f n (ground arith)
offers_change (move_offer o o' g m e) = moved o o' g m.same_id m (ground arith)
offers_change (accept a) =
    moved a.offer (accepted_offer a.offer a.offer_time) a.has_offer refl
      (accepted-OfferMove a.offer a.offer_time a.may_accept) (ground (arith, a.result))
offers_change (move_booking b b' g m e) = same (ground arith)

pub bookings_change : {s s' : Store} → Step s s' → BookingsChange s s'
unfolding new_booking
bookings_change (aside ds td ro rb) = same rb
bookings_change (start_session d f n e) = same (ground arith)
bookings_change (move_session d d' g m e) = same (ground arith)
bookings_change (open_demand d f e) = same (ground arith)
bookings_change (move_demand d d' g m e) = same (ground arith)
bookings_change (make_offer o f n e) = same (ground arith)
bookings_change (move_offer o o' g m e) = same (ground arith)
bookings_change (accept a) =
    added (new_booking a.booking_id a.offer a.session a.demand a.vehicle a.created a.updated)
      a.unused refl (ground (arith, a.result))
bookings_change (move_booking b b' g m e) = moved b b' g m.same_id m (ground arith)

pub sessions_change : {s s' : Store} → Step s s' → SessionsChange s s'
unfolding take_seat
sessions_change (aside ds td ro rb) = same ds
sessions_change (start_session d f n e) = added d f n (ground arith)
sessions_change (move_session d d' g m e) = moved d d' g m.same_id (by_move m) (ground arith)
sessions_change (open_demand d f e) = same (ground arith)
sessions_change (move_demand d d' g m e) = same (ground arith)
sessions_change (make_offer o f n e) = same (ground arith)
sessions_change (move_offer o o' g m e) = same (ground arith)
sessions_change (accept a) =
    moved a.session (take_seat a.session a.session_time) a.has_session refl
      (by_seat a.session_time a.has_seat refl) (ground (arith, a.result))
sessions_change (move_booking b b' g m e) = same (ground arith)

pub demands_change : {s s' : Store} → Step s s' → DemandsChange s s'
unfolding matched_demand
demands_change (aside ds td ro rb) = same td
demands_change (start_session d f n e) = same (ground arith)
demands_change (move_session d d' g m e) = same (ground arith)
demands_change (open_demand d f e) = added d f tt (ground arith)
demands_change (move_demand d d' g m e) = moved d d' g m.same_id (by_move m) (ground arith)
demands_change (make_offer o f n e) = same (ground arith)
demands_change (move_offer o o' g m e) = same (ground arith)
demands_change (accept a) =
    moved a.demand (matched_demand a.demand a.demand_time) a.has_demand refl
      (by_match a.demand_time refl) (ground (arith, a.result))
demands_change (move_booking b b' g m e) = same (ground arith)

pub record IsKeyed (s : Store) : Type 0 where
  pub sessions : KeyedBy (λ (d : DriverSession). d.id) s.driver_sessions
  pub demands : KeyedBy (λ (d : TripDemand). d.id) s.trip_demands
  pub offers : KeyedBy (λ (o : RideOffer). o.id) s.ride_offers
  pub bookings : KeyedBy (λ (b : RideBooking). b.id) s.ride_bookings

pub Step-IsKeyed : {s s' : Store} → Step s s' → IsKeyed s → IsKeyed s'
Step-IsKeyed st k = record {
  sessions = Change-KeyedBy _ _ _ (sessions_change st) k.sessions;
  demands = Change-KeyedBy _ _ _ (demands_change st) k.demands;
  offers = Change-KeyedBy _ _ _ (offers_change st) k.offers;
  bookings = Change-KeyedBy _ _ _ (bookings_change st) k.bookings;
}

pub Steps-IsKeyed : {s s' : Store} → Steps s s' → IsKeyed s → IsKeyed s'
Steps-IsKeyed here k = k
Steps-IsKeyed (next r st) k = Step-IsKeyed st (Steps-IsKeyed r k)

Step-IsDistinct :
    {s s' : Store} → Step s s' → IsDistinct s.driver_sessions → IsDistinct s'.driver_sessions
Step-IsDistinct {s} st d = elim (sessions_change st) [
  | same e ↦ subst IsDistinct (sym e) d
  | added v f n e ↦ subst IsDistinct (sym e) (put-IsDistinct v.id v s.driver_sessions d)
  | moved v v' g i m e ↦ subst IsDistinct (sym e) (put-IsDistinct v.id v' s.driver_sessions d)
]

pub Steps-IsDistinct :
    {s s' : Store} → Steps s s' → IsDistinct s.driver_sessions → IsDistinct s'.driver_sessions
Steps-IsDistinct here d = d
Steps-IsDistinct (next r st) d = Step-IsDistinct st (Steps-IsDistinct r d)
