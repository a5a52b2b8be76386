-- ===== src/Ledger.antt =====
-- What the store may go through, whatever the calls: the abstract view of the services, as a step
-- relation on the tables. `Ledger/Refines` shows that each operation of internal/application and
-- internal/background is a sequence of these steps; the other children show what the steps keep.
pub mod Keys
pub mod Distinct
pub mod Tables
pub mod States
pub mod Seats
pub mod Refines
pub mod Races
use smallworld_be.Prelude.{String, ◌==◌, ◌≡◌, ◌⊎◌, Bool, true, false, none, some, ◌||◌}
use smallworld_be.Prelude.Int.{ℤ, pos, leb_ℤ}
use smallworld_be.Prelude.Table.{get, put}
use smallworld_be.Domain.States.{
  TripDemandState, RideOfferState, RideBookingState, DriverSessionState,
}
use smallworld_be.Domain.Models.{Time, DriverSession, TripDemand, RideOffer, RideBooking, Vehicle}
use smallworld_be.Domain.Policies.{
  demand_can_transition, offer_can_transition, booking_can_transition, session_can_transition,
}
use smallworld_be.World.{Store}
use smallworld_be.Services.Offers.Booking.{accepted_offer, new_booking, take_seat, matched_demand}

-- A session may also stay in its state, and a paused one with no seat left resumes as full.
abbrev pub session_may_become : DriverSessionState → DriverSessionState → Bool
session_may_become DriverSessionState.active DriverSessionState.active = true
session_may_become DriverSessionState.full DriverSessionState.full = true
session_may_become DriverSessionState.paused DriverSessionState.paused = true
session_may_become DriverSessionState.ended DriverSessionState.ended = true
session_may_become (DriverSessionState.unrecognized _) (DriverSessionState.unrecognized _) = true
session_may_become DriverSessionState.paused DriverSessionState.full = true
session_may_become a b = session_can_transition a b

pub record SessionMove (d d' : DriverSession) : Type 0 where
  pub same_id : d'.id ≡ d.id
  pub same_driver : d'.driver_id ≡ d.driver_id
  pub same_seats : d'.remaining_capacity ≡ d.remaining_capacity
  pub moves : session_may_become d.state d'.state ≡ true

pub record DemandMove (d d' : TripDemand) : Type 0 where
  pub same_id : d'.id ≡ d.id
  pub same_rider : d'.rider_id ≡ d.rider_id
  pub moves : demand_can_transition d.state d'.state ≡ true

pub record OfferMove (o o' : RideOffer) : Type 0 where
  pub same_id : o'.id ≡ o.id
  pub same_demand : o'.demand_id ≡ o.demand_id
  pub same_session : o'.driver_session_id ≡ o.driver_session_id
  pub moves : offer_can_transition o.state o'.state ≡ true

pub record BookingMove (b b' : RideBooking) : Type 0 where
  pub same_id : b'.id ≡ b.id
  pub same_rider : b'.rider_id ≡ b.rider_id
  pub same_driver : b'.driver_id ≡ b.driver_id
  pub same_session : b'.driver_session_id ≡ b.driver_session_id
  pub moves : booking_can_transition b.state b'.state ≡ true

-- What an acceptance finds, and the four rows that it writes.
pub record Acceptance (s s' : Store) : Type 0 where
  pub offer : RideOffer
  pub session : DriverSession
  pub demand : TripDemand
  pub vehicle : Vehicle
  pub booking_id : String
  pub offer_time : Time
  pub created : Time
  pub updated : Time
  pub session_time : Time
  pub demand_time : Time
  pub has_offer : get offer.id s.ride_offers ≡ some offer
  pub has_session : get session.id s.driver_sessions ≡ some session
  pub has_demand : get demand.id s.trip_demands ≡ some demand
  pub of_session : offer.driver_session_id ≡ session.id
  pub of_demand : offer.demand_id ≡ demand.id
  pub may_accept : offer_can_transition offer.state RideOfferState.accepted ≡ true
  pub has_seat : leb_ℤ session.remaining_capacity (pos 0) ≡ false
  pub unused : get booking_id s.ride_bookings ≡ none
  pub result : s' ≡ record s {
    ride_offers = put offer.id (accepted_offer offer offer_time) s.ride_offers;
    ride_bookings =
        put booking_id
          (new_booking booking_id offer session demand vehicle created updated)
          s.ride_bookings;
    driver_sessions = put session.id (take_seat session session_time) s.driver_sessions;
    trip_demands = put demand.id (matched_demand demand demand_time) s.trip_demands;
  }

pub data Step (s s' : Store) : Type 0 where
  aside :
      s'.driver_sessions ≡ s.driver_sessions
      → s'.trip_demands ≡ s.trip_demands
      → s'.ride_offers ≡ s.ride_offers
      → s'.ride_bookings ≡ s.ride_bookings
      → Step s s'
  start_session :
      (d : DriverSession)
      → get d.id s.driver_sessions ≡ none
      → d.state ≡ DriverSessionState.active
      → s' ≡ record s { driver_sessions = put d.id d s.driver_sessions }
      → Step s s'
  move_session :
      (d d' : DriverSession)
      → get d.id s.driver_sessions ≡ some d
      → SessionMove d d'
      → s' ≡ record s { driver_sessions = put d.id d' s.driver_sessions }
      → Step s s'
  open_demand :
      (d : TripDemand)
      → get d.id s.trip_demands ≡ none
      → s' ≡ record s { trip_demands = put d.id d s.trip_demands }
      → Step s s'
  move_demand :
      (d d' : TripDemand)
      → get d.id s.trip_demands ≡ some d
      → DemandMove d d'
      → s' ≡ record s { trip_demands = put d.id d' s.trip_demands }
      → Step s s'
  make_offer :
      (o : RideOffer)
      → get o.id s.ride_offers ≡ none
      → o.state ≡ RideOfferState.pending
      → s' ≡ record s { ride_offers = put o.id o s.ride_offers }
      → Step s s'
  move_offer :
      (o o' : RideOffer)
      → get o.id s.ride_offers ≡ some o
      → OfferMove o o'
      → s' ≡ record s { ride_offers = put o.id o' s.ride_offers }
      → Step s s'
  accept : Acceptance s s' → Step s s'
  move_booking :
      (b b' : RideBooking)
      → get b.id s.ride_bookings ≡ some b
      → BookingMove b b'
      → s' ≡ record s { ride_bookings = put b.id b' s.ride_bookings }
      → Step s s'

pub data Steps (s : Store) : Store → Type 0 where
  here : Steps s s
  next : {t u : Store} → Steps s t → Step t u → Steps s u

pub Steps-trans : {s t u : Store} → Steps s t → Steps t u → Steps s u
Steps-trans r here = r
Steps-trans r (next q st) = next (Steps-trans r q) st
