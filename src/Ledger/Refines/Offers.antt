-- ===== src/Ledger/Refines/Offers.antt =====
-- offer_service.go and offer_acceptor.go.
use smallworld_be.Prelude.{String, suc, ◌≡◌, none, some, arith, inl, inr, Option-cases}
use smallworld_be.Prelude.Table.{get}
use smallworld_be.Domain.Models.{DriverSession, TripDemand, RideOffer, RideBooking, Vehicle}
use smallworld_be.Domain.Errors.{Error, ok, err, Result-cases}
use smallworld_be.Domain.Policies.{require_transition}
use smallworld_be.World.{World}
use smallworld_be.World.Calls.{ephemeral_delete}
use smallworld_be.Services.Offers.{decline, accept_locked}
use smallworld_be.Services.Offers.Booking.{accepted_offer, new_booking, take_seat, matched_demand}
use smallworld_be.Ledger.Tables.{IsKeyed}
use smallworld_be.Ledger.{Step, Steps, move_offer, Acceptance}
use smallworld_be.Ledger.Refines.{Steps-of_eq, Steps-of_step}

pub decline-Steps :
    (actor id : String) (w : World) → IsKeyed w.store → Steps w.store (decline actor id w).1.store
unfolding decline require_transition ephemeral_delete
decline-Steps actor id w k = elim (Option-cases (get id w.ride_offers)) [
  | inl e ↦ Steps-of_eq (ground arith)
  | inr (o, e) ↦ elim (Result-cases (decline actor id w).0) [
    | inl (o', r) ↦
        Steps-of_step
          (move_offer o o' (ground (arith, k.offers id o e)) (ground arith) (ground arith))
    | inr (x, r) ↦ Steps-of_eq (ground arith)
  ]
]

-- What an acceptance under the mutex wrote, if it returned.
Acceptance-accept_locked :
    (actor id : String) (w : World) (o : RideOffer) (d : DriverSession) (t : TripDemand)
    (v : Vehicle)
    → IsKeyed w.store
    → get (w.new_id w.seq "booking") w.ride_bookings ≡ none
    → get id w.ride_offers ≡ some o
    → get o.driver_session_id w.driver_sessions ≡ some d
    → get o.demand_id w.trip_demands ≡ some t
    → get d.vehicle_id w.vehicles ≡ some v
    → (b : RideBooking) → (accept_locked actor id w).0 ≡ ok b
    → Acceptance w.store (accept_locked actor id w).1.store
unfolding accept_locked require_transition ephemeral_delete accepted_offer new_booking take_seat
    matched_demand
Acceptance-accept_locked actor id w o d t v k f ho hd ht hv b r = record {
  offer = o;
  session = d;
  demand = t;
  vehicle = v;
  booking_id = w.new_id w.seq "booking";
  offer_time = w.clock w.ticks;
  created = w.clock (suc w.ticks);
  updated = w.clock (suc (suc w.ticks));
  session_time = w.clock (suc (suc (suc w.ticks)));
  demand_time = w.clock (suc (suc (suc (suc w.ticks))));
  has_offer = ground (arith, k.offers id o ho);
  has_session = ground (arith, k.sessions o.driver_session_id d hd);
  has_demand = ground (arith, k.demands o.demand_id t ht);
  of_session = ground (arith, k.sessions o.driver_session_id d hd);
  of_demand = ground (arith, k.demands o.demand_id t ht);
  may_accept = ground arith;
  has_seat = ground arith;
  unused = f;
  result = ground arith;
}

-- The rows that an acceptance needs: an offer, its session, its demand, and the session's vehicle.
pub record Rows (id : String) (w : World) : Type 0 where
  pub offer : RideOffer
  pub session : DriverSession
  pub demand : TripDemand
  pub vehicle : Vehicle
  pub has_offer : get id w.ride_offers ≡ some offer
  pub has_session : get offer.driver_session_id w.driver_sessions ≡ some session
  pub has_demand : get offer.demand_id w.trip_demands ≡ some demand
  pub has_vehicle : get session.vehicle_id w.vehicles ≡ some vehicle

pub Rows-accept_locked :
    (actor id : String) (w : World) (b : RideBooking)
    → (accept_locked actor id w).0 ≡ ok b
    → Rows id w
unfolding accept_locked require_transition
Rows-accept_locked actor id w b r = elim (Option-cases (get id w.ride_offers)) [
  | inl e ↦ absurd (ground arith)
  | inr (o, ho) ↦ elim (Option-cases (get o.driver_session_id w.driver_sessions)) [
    | inl e ↦ absurd (ground arith)
    | inr (d, hd) ↦ elim (Option-cases (get o.demand_id w.trip_demands)) [
      | inl e ↦ absurd (ground arith)
      | inr (t, ht) ↦ elim (Option-cases (get d.vehicle_id w.vehicles)) [
        | inl e ↦ absurd (ground arith)
        | inr (v, hv) ↦ record {
          offer = o;
          session = d;
          demand = t;
          vehicle = v;
          has_offer = ho;
          has_session = hd;
          has_demand = ht;
          has_vehicle = hv;
        }
      ]
    ]
  ]
]

accept_locked_error :
    (actor id : String) (w : World) (x : Error)
    → (accept_locked actor id w).0 ≡ err x
    → (accept_locked actor id w).1.store ≡ w.store
unfolding accept_locked require_transition
accept_locked_error actor id w x r = ground arith

pub accept_locked-Steps :
    (actor id : String) (w : World)
    → IsKeyed w.store
    → get (w.new_id w.seq "booking") w.ride_bookings ≡ none
    → Steps w.store (accept_locked actor id w).1.store
accept_locked-Steps actor id w k f = elim (Result-cases (accept_locked actor id w).0) [
  | inr (x, r) ↦ Steps-of_eq (accept_locked_error actor id w x r)
  | inl (b, r) ↦
      let q = Rows-accept_locked actor id w b r in
      Steps-of_step (
        Step.accept (
          Acceptance-accept_locked actor id w q.offer q.session q.demand q.vehicle k f q.has_offer
            q.has_session q.has_demand q.has_vehicle b r))
]
