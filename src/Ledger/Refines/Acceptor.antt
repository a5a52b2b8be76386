-- ===== src/Ledger/Refines/Acceptor.antt =====
-- `Accept` with the transaction of offer_acceptor.go, and both branches together.
use smallworld_be.Prelude.{String, suc, ◌≡◌, ◌⊎◌, Option, none, some, arith, inl, inr, Option-cases}
use smallworld_be.Prelude.Table.{get}
use smallworld_be.Domain.Models.{Time, RideBooking}
use smallworld_be.Domain.Errors.{ok, Result-cases}
use smallworld_be.Domain.Policies.{require_transition}
use smallworld_be.World.{World, Database}
use smallworld_be.World.Calls.{ephemeral_delete}
use smallworld_be.Acceptor.{accept_offer, accept_rows, settle}
use smallworld_be.Services.Offers.{accept, accept_with, accept_by}
use smallworld_be.Services.Offers.Booking.{accepted_offer, new_booking, take_seat, matched_demand}
use smallworld_be.Ledger.Tables.{IsKeyed}
use smallworld_be.Ledger.{Step, Steps, Acceptance}
use smallworld_be.Ledger.Refines.{Steps-of_eq, Steps-of_step}
use smallworld_be.Ledger.Refines.Offers.{Rows, accept_locked-Steps}

Rows-accept_rows :
    (db : Database) (id booking_id : String) (t : Time) (w : World) (b : RideBooking)
    → (accept_rows db id booking_id t w).0 ≡ ok b
    → Rows id w
unfolding accept_rows require_transition
Rows-accept_rows db id booking_id t w b r = elim (Option-cases (get id w.ride_offers)) [
  | inl e ↦ absurd (ground arith)
  | inr (o, ho) ↦ elim (Option-cases (get o.driver_session_id w.driver_sessions)) [
    | inl e ↦ absurd (ground arith)
    | inr (d, hd) ↦ elim (Option-cases (get o.demand_id w.trip_demands)) [
      | inl e ↦ absurd (ground arith)
      | inr (x, ht) ↦ elim (Option-cases (get d.vehicle_id w.vehicles)) [
        | inl e ↦ absurd (ground arith)
        | inr (v, hv) ↦ record {
          offer = o;
          session = d;
          demand = x;
          vehicle = v;
          has_offer = ho;
          has_session = hd;
          has_demand = ht;
          has_vehicle = hv;
        }
      ]
    ]
  ]
]

-- The rows that the statements of a transaction wrote, if none failed.
Acceptance-accept_rows :
    (db : Database) (id booking_id : String) (t : Time) (w : World) (q : Rows id w)
    → IsKeyed w.store
    → (b : RideBooking) → (accept_rows db id booking_id t w).0 ≡ ok b
    → Acceptance w.store (accept_rows db id booking_id t w).1.store
unfolding accept_rows require_transition accepted_offer new_booking take_seat matched_demand
Acceptance-accept_rows db id booking_id t w q k b r = record {
  offer = q.offer;
  session = q.session;
  demand = q.demand;
  vehicle = q.vehicle;
  booking_id = booking_id;
  offer_time = t;
  created = t;
  updated = t;
  session_time = t;
  demand_time = t;
  has_offer = ground (arith, k.offers id q.offer q.has_offer, q.has_offer);
  has_session =
      ground (arith, k.sessions q.offer.driver_session_id q.session q.has_session, q.has_session);
  has_demand = ground (arith, k.demands q.offer.demand_id q.demand q.has_demand, q.has_demand);
  of_session = ground (arith, k.sessions q.offer.driver_session_id q.session q.has_session);
  of_demand = ground (arith, k.demands q.offer.demand_id q.demand q.has_demand);
  may_accept = ground (arith, q.has_offer);
  has_seat = ground (arith, q.has_offer, q.has_session);
  unused = ground (arith, q.has_offer, q.has_session, q.has_demand, q.has_vehicle);
  result = ground (arith, q.has_offer, q.has_session, q.has_demand, q.has_vehicle);
}

accept_offer-Steps :
    (db : Database) (id booking_id : String) (t : Time) (w : World)
    → IsKeyed w.store
    → Steps w.store (accept_offer db id booking_id t w).1.store
unfolding accept_offer
accept_offer-Steps db id booking_id t w k =
    elim (Result-cases (accept_rows db id booking_id t w).0) [
      | inr (x, r) ↦ Steps-of_eq (ground arith)
      | inl (b, r) ↦
          let a =
            Acceptance-accept_rows db id booking_id t w (Rows-accept_rows db id booking_id t w b r)
              k b r in
          let e : (settle w.store (accept_rows db id booking_id t w)).1.store
              ≡ (accept_rows db id booking_id t w).1.store =
            ground arith in
          rw e (Steps-of_step (Step.accept a))
    ]

-- The world in which the transaction runs: an id is drawn and the clock is read before it.
abbrev at_transaction : World → World
at_transaction w = record w { seq = suc w.seq; ticks = suc w.ticks }

accept_by_cases :
    (db : Database) (actor id : String) (w : World)
    → ((accept_by db actor id w).1.store ≡ w.store)
      ⊎ ((accept_by db actor id w).1.store
          ≡ (accept_offer db id
              (w.new_id w.seq "booking")
              (w.clock w.ticks)
              (at_transaction w)).1.store)
unfolding accept_by ephemeral_delete
accept_by_cases db actor id w = ground arith

accept_by-Steps :
    (db : Database) (actor id : String) (w : World)
    → IsKeyed w.store
    → Steps w.store (accept_by db actor id w).1.store
accept_by-Steps db actor id w k = elim (accept_by_cases db actor id w) [
  | inl e ↦ Steps-of_eq e
  | inr e ↦ rw e (accept_offer-Steps db id _ _ (at_transaction w) k)
]

accept_with-Steps :
    (acceptor : Option Database) (actor id : String) (w : World)
    → IsKeyed w.store
    → get (w.new_id w.seq "booking") w.ride_bookings ≡ none
    → Steps w.store (accept_with acceptor actor id w).1.store
unfolding accept_with
accept_with-Steps none actor id w k f = accept_locked-Steps actor id w k f
accept_with-Steps (some db) actor id w k f = accept_by-Steps db actor id w k

pub accept-Steps :
    (actor id : String) (w : World)
    → IsKeyed w.store
    → get (w.new_id w.seq "booking") w.ride_bookings ≡ none
    → Steps w.store (accept actor id w).1.store
unfolding accept
accept-Steps actor id w k f = accept_with-Steps w.acceptor actor id w k f
