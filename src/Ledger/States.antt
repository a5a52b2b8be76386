-- ===== src/Ledger/States.antt =====
-- The states of offers and bookings over any number of steps.
use smallworld_be.Prelude.{
  ◌≤◌, String, ◌≡◌, refl, sym, subst, ◌∙◌, ◌⊎◌, inl, inr, true, false, some, arith,
}
use smallworld_be.Prelude.Table.{get}
use smallworld_be.Domain.States.{RideBookingState}
use smallworld_be.Domain.Models.{RideOffer, RideBooking}
use smallworld_be.Domain.Policies.{
  offer_can_transition, booking_can_transition, allows_driver_tracking,
}
use smallworld_be.Domain.Machines.{
  offer_moves_once, booking_can_transition-stage, no_tracking_is_end, stage,
}
use smallworld_be.World.{Store}
use smallworld_be.Ledger.Keys.{Change-get}
use smallworld_be.Ledger.Tables.{offers_change, bookings_change}
use smallworld_be.Ledger.{Steps, here, next, OfferMove}

-- A later version of an offer: the same offer, moved once at most.
pub record OfferLater (o o' : RideOffer) : Type 0 where
  pub same_demand : o'.demand_id ≡ o.demand_id
  pub same_session : o'.driver_session_id ≡ o.driver_session_id
  pub state : (o'.state ≡ o.state) ⊎ (offer_can_transition o.state o'.state ≡ true)

OfferLater-move : (o o' p : RideOffer) → OfferLater o o' → OfferMove o' p → OfferLater o p
OfferLater-move o o' p l m = record {
  same_demand = m.same_demand ∙ l.same_demand;
  same_session = m.same_session ∙ l.same_session;
  state = inr (ground (arith, offer_moves_once o.state o'.state p.state, l.state, m.moves));
}

-- Over any steps an offer stays in the store with its demand and its session, and it is in its old
-- state or in one that a single allowed transition leads to.
pub offer-Steps :
    {s s' : Store} (k : String) (o : RideOffer)
    → Steps s s'
    → get k s.ride_offers ≡ some o
    → (o' : RideOffer) × (get k s'.ride_offers ≡ some o') × OfferLater o o'
offer-Steps k o here h =
    (o, h, record { same_demand = refl; same_session = refl; state = inl refl })
offer-Steps k o (next r st) h =
    let (o', g, l) = offer-Steps k o r h in
    let (p, g', c) = Change-get _ _ _ k o' (offers_change st) g in
    (p, g', elim c [ inl e ↦ subst (OfferLater o) (sym e) l | inr m ↦ OfferLater-move o o' p l m ])

-- A chain of allowed moves.
pub data BookingPath (a : RideBookingState) : RideBookingState → Type 0 where
  stay : BookingPath a a
  move :
      {b c : RideBookingState}
      → BookingPath a b
      → booking_can_transition b c ≡ true
      → BookingPath a c

pub record BookingLater (b b' : RideBooking) : Type 0 where
  pub same_rider : b'.rider_id ≡ b.rider_id
  pub same_driver : b'.driver_id ≡ b.driver_id
  pub same_session : b'.driver_session_id ≡ b.driver_session_id
  pub path : BookingPath b.state b'.state

-- Over any steps a booking stays in the store with its rider, its driver and its session, and its
-- state is reached by a chain of allowed transitions.
pub booking-Steps :
    {s s' : Store} (k : String) (b : RideBooking)
    → Steps s s'
    → get k s.ride_bookings ≡ some b
    → (b' : RideBooking) × (get k s'.ride_bookings ≡ some b') × BookingLater b b'
booking-Steps k b here h =
    (b, h, record { same_rider = refl; same_driver = refl; same_session = refl; path = stay })
booking-Steps k b (next r st) h =
    let (b', g, l) = booking-Steps k b r h in
    let (c, g', ch) = Change-get _ _ _ k b' (bookings_change st) g in
    (
      c,
      g',
      elim ch [
        | inl e ↦ subst (BookingLater b) (sym e) l
        | inr m ↦ record {
          same_rider = m.same_rider ∙ l.same_rider;
          same_driver = m.same_driver ∙ l.same_driver;
          same_session = m.same_session ∙ l.same_session;
          path = move l.path m.moves;
        }
      ],
    )

path-stage : {a b : RideBookingState} → BookingPath a b → stage a ≤ stage b
path-stage stay = omega arith
path-stage (move {b} {c} p h) = omega (arith, path-stage p, booking_can_transition-stage b c h)

path_end : {a b : RideBookingState} → BookingPath a b → allows_driver_tracking a ≡ false → b ≡ a
path_end stay h = refl
path_end {a} (move {b} {c} p e) h = ground (arith, path_end p h, no_tracking_is_end a c h)

-- A booking that has ended keeps its state over any steps.
pub booking_end-Steps :
    {s s' : Store} (k : String) (b : RideBooking)
    → Steps s s'
    → get k s.ride_bookings ≡ some b
    → allows_driver_tracking b.state ≡ false
    → (b' : RideBooking) × (get k s'.ride_bookings ≡ some b') × (b'.state ≡ b.state)
booking_end-Steps k b r h e = let (b', g, l) = booking-Steps k b r h in (b', g, path_end l.path e)
