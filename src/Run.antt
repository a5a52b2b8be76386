-- ===== src/Run.antt =====
-- The program as its users see it: any sequence of requests and background rounds. A request is one
-- step, and so is what a round of the sweeper does about one offer: other requests may come between
-- two offers of a round, but two requests at once are not modelled.
use smallworld_be.Prelude.{suc, String, ◌≡◌, none, some, false}
use smallworld_be.Prelude.Int.{ℤ, pos, ◌≤ℤ◌}
use smallworld_be.Prelude.Table.{get}
use smallworld_be.Domain.States.{RideBookingState}
use smallworld_be.Domain.Models.{Time, Duration, DriverSession, RideOffer, RideBooking}
use smallworld_be.Domain.Policies.{allows_driver_tracking}
use smallworld_be.World.{World}
use smallworld_be.Services.Inputs.{
  UpsertProfileInput, CreateVehicleInput, DevBootstrapInput, StartDriverSessionInput,
  HeartbeatDriverSessionInput, TransitionDriverSessionStateInput, CreateTripDemandInput,
}
use smallworld_be.Services.Accounts.{upsert_authenticated, create_vehicle, bootstrap}
use smallworld_be.Services.Sessions.{start}
use smallworld_be.Services.Sessions.Updates.{heartbeat_owned, transition_state_owned}
use smallworld_be.Services.Demands.{create, cancel}
use smallworld_be.Services.Offers.{accept, decline}
use smallworld_be.Services.Bookings.{transition_for_actor}
use smallworld_be.Services.Reviews.{create_for_actor}
use smallworld_be.Sweeper.{Config, sweep_once, sweep_offer}
use smallworld_be.Reconciler.{reconcile_once}
use smallworld_be.Ledger.{Steps, here, Steps-trans}
use smallworld_be.Ledger.Tables.{IsKeyed, Steps-IsKeyed, Steps-IsDistinct}
use smallworld_be.Ledger.Distinct.{IsDistinct}
use smallworld_be.Ledger.States.{
  offer-Steps, booking_end-Steps, booking-Steps, OfferLater, BookingLater,
}
use smallworld_be.Ledger.Seats.{booked, seats, seats-Steps, booked-le-seats}
use smallworld_be.Ledger.Refines.Aside.{
  create_for_actor-Steps, upsert_authenticated-Steps, create_vehicle-Steps, bootstrap-Steps,
}
use smallworld_be.Ledger.Refines.Start.{start-Steps}
use smallworld_be.Ledger.Refines.Sessions.{heartbeat_owned-Steps, transition_state_owned-Steps}
use smallworld_be.Ledger.Refines.Demands.{create-Steps, cancel-Steps}
use smallworld_be.Ledger.Refines.Acceptor.{accept-Steps}
use smallworld_be.Ledger.Refines.Offers.{decline-Steps}
use smallworld_be.Ledger.Refines.Bookings.{transition_for_actor-Steps}
use smallworld_be.Ledger.Refines.Background.{sweep_once-Steps, sweep_offer-Steps}
use smallworld_be.Ledger.Refines.Reconcile.{reconcile_once-Steps}

-- A request of a user, named by the method that serves it, or a round of a background loop.
pub data Call : Type 0 where
  upsert_profile : String → UpsertProfileInput → Call
  new_vehicle : CreateVehicleInput → Call
  dev_bootstrap : DevBootstrapInput → Call
  start_session : StartDriverSessionInput → Call
  beat : String → HeartbeatDriverSessionInput → Call
  move_session : String → TransitionDriverSessionStateInput → Call
  create_demand : CreateTripDemandInput → Call
  cancel_demand : String → String → Call
  accept_offer : String → String → Call
  decline_offer : String → String → Call
  move_booking : String → String → RideBookingState → Call
  review : String → String → ℤ → String → Call
  sweep : Config → Call
  reconcile : Duration → Call

unfoldable pub perform : Call → World → World
perform (upsert_profile subject i) w = (upsert_authenticated subject i w).1
perform (new_vehicle i) w = (create_vehicle i w).1
perform (dev_bootstrap i) w = (bootstrap i w).1
perform (start_session i) w = (start i w).1
perform (beat actor i) w = (heartbeat_owned actor i w).1
perform (move_session actor i) w = (transition_state_owned actor i w).1
perform (create_demand i) w = (create i w).1
perform (cancel_demand rider id) w = (cancel rider id w).1
perform (accept_offer actor id) w = (accept actor id w).1
perform (decline_offer actor id) w = (decline actor id w).1
perform (move_booking actor id to) w = (transition_for_actor actor id to w).1
perform (review booking author rating comment) w =
    (create_for_actor booking author rating comment w).1
perform (sweep c) w = (sweep_once c w).1
perform (reconcile d) w = (reconcile_once d w).1

-- The ids that the generator gives next are in no table yet.
pub record Fresh (w : World) : Type 0 where
  pub session : get (w.new_id w.seq "ds") w.driver_sessions ≡ none
  pub demand : get (w.new_id w.seq "td") w.trip_demands ≡ none
  pub offer : get (w.new_id (suc w.seq) "offer") w.ride_offers ≡ none
  pub booking : get (w.new_id w.seq "booking") w.ride_bookings ≡ none

-- Rows are stored under their own ids, and no session is stored twice.
pub record WellFormed (w : World) : Type 0 where
  pub keyed : IsKeyed w.store
  pub distinct : IsDistinct w.driver_sessions

-- Any number of calls, each made where the generator's next ids are unused. A round of the sweeper
-- is a call as a whole, or visits the offers that it has listed one by one: `visit` is for any offer
-- as it was at any earlier time.
pub data Run (w : World) : World → Type 0 where
  begin : Run w w
  call : {u : World} → Run w u → (c : Call) → Fresh u → Run w (perform c u)
  visit :
      {u : World}
      → Run w u
      → (c : Config) (t : Time) (o : RideOffer) → Run w (sweep_offer c t o u).1

pub perform-Steps :
    (c : Call) (w : World) → Fresh w → WellFormed w → Steps w.store (perform c w).store
unfolding perform
perform-Steps (upsert_profile subject i) w f k = upsert_authenticated-Steps subject i w
perform-Steps (new_vehicle i) w f k = create_vehicle-Steps i w
perform-Steps (dev_bootstrap i) w f k = bootstrap-Steps i w
perform-Steps (start_session i) w f k = start-Steps i w f.session
perform-Steps (beat actor i) w f k = heartbeat_owned-Steps actor i w k.keyed
perform-Steps (move_session actor i) w f k = transition_state_owned-Steps actor i w k.keyed
perform-Steps (create_demand i) w f k = create-Steps i w f.demand f.offer
perform-Steps (cancel_demand rider id) w f k = cancel-Steps rider id w k.keyed
perform-Steps (accept_offer actor id) w f k = accept-Steps actor id w k.keyed f.booking
perform-Steps (decline_offer actor id) w f k = decline-Steps actor id w k.keyed
perform-Steps (move_booking actor id to) w f k = transition_for_actor-Steps actor id to w k.keyed
perform-Steps (review booking author rating comment) w f k =
    create_for_actor-Steps booking author rating comment w
perform-Steps (sweep c) w f k = sweep_once-Steps c w k.keyed
perform-Steps (reconcile d) w f k = reconcile_once-Steps d w k.keyed k.distinct

Steps-WellFormed : {w w' : World} → Steps w.store w'.store → WellFormed w → WellFormed w'
Steps-WellFormed r k = record {
  keyed = Steps-IsKeyed r k.keyed;
  distinct = Steps-IsDistinct r k.distinct;
}

-- Whatever requests and background rounds are made, in whatever order, and with requests between
-- the offers of a round of the sweeper, on tables that are well formed, the tables stay well formed
-- and go through the allowed steps only.
pub Run-Steps : {w w' : World} → Run w w' → WellFormed w → WellFormed w' × Steps w.store w'.store
Run-Steps begin k = (k, here)
Run-Steps (call {u} r c f) k =
    let (k', steps) = Run-Steps r k in
    let more = perform-Steps c u f k' in
    (Steps-WellFormed {w = u} {w' = perform c u} more k', Steps-trans steps more)
Run-Steps (visit {u} r c t o) k =
    let (k', steps) = Run-Steps r k in
    let more = sweep_offer-Steps c t o u k'.keyed in
    (Steps-WellFormed {w = u} {w' = (sweep_offer c t o u).1} more k', Steps-trans steps more)

-- However a run goes on, an offer stays the offer of its demand and its session, and its state is
-- the same or one single allowed transition further.
pub Run-offer :
    {w w' : World} (id : String) (o : RideOffer)
    → Run w w'
    → WellFormed w
    → get id w.ride_offers ≡ some o
    → (o' : RideOffer) × (get id w'.ride_offers ≡ some o') × OfferLater o o'
Run-offer id o r k g = offer-Steps id o (Run-Steps r k).1 g

-- However a run goes on, a booking stays the booking of its rider, its driver and its session, and
-- its state is reached by a chain of allowed transitions.
pub Run-booking :
    {w w' : World} (id : String) (b : RideBooking)
    → Run w w'
    → WellFormed w
    → get id w.ride_bookings ≡ some b
    → (b' : RideBooking) × (get id w'.ride_bookings ≡ some b') × BookingLater b b'
Run-booking id b r k g = booking-Steps id b (Run-Steps r k).1 g

-- A booking that has ended, so that it allows no driver tracking, keeps its state in every run.
pub Run-booking_end :
    {w w' : World} (id : String) (b : RideBooking)
    → Run w w'
    → WellFormed w
    → get id w.ride_bookings ≡ some b
    → allows_driver_tracking b.state ≡ false
    → (b' : RideBooking) × (get id w'.ride_bookings ≡ some b') × (b'.state ≡ b.state)
Run-booking_end id b r k g e = booking_end-Steps id b (Run-Steps r k).1 g e

-- In every run the seats that a session has left and the bookings made on it add up to the same
-- number, however often it is paused, resumed, beaten or booked.
pub Run-seats :
    {w w' : World} (id : String) (d : DriverSession)
    → Run w w'
    → WellFormed w
    → get id w.driver_sessions ≡ some d
    → (d' : DriverSession) × (get id w'.driver_sessions ≡ some d')
      × (seats id d' w'.store ≡ seats id d w.store)
Run-seats id d r k g = let (d', g', e, n) = seats-Steps id d (Run-Steps r k).1 g in (d', g', e)

-- A session is never overbooked: if its seats left are not negative at one time, then at no later
-- time of a run do its bookings outnumber the seats left and booked at that time.
pub Run-not_overbooked :
    {w w' : World} (id : String) (d : DriverSession)
    → Run w w'
    → WellFormed w
    → get id w.driver_sessions ≡ some d
    → pos 0 ≤ℤ d.remaining_capacity
    → pos (booked id w'.ride_bookings) ≤ℤ seats id d w.store
Run-not_overbooked id d r k g h = booked-le-seats id d (Run-Steps r k).1 g h
