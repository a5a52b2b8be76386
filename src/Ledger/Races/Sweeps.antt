-- ===== src/Ledger/Races/Sweeps.antt =====
-- A round of sweeper.go beside a request that cancels the demand of an offer. The round reads the
-- demand when it classifies the offer and saves all of it later, without a lock.
use smallworld_be.Prelude.{◌≡◌, ◌≢◌, refl, ap, Option, none, ◌∙◌, suc, some, arith, eq_iff}
use smallworld_be.Prelude.Table.{get, put, get-put}
use smallworld_be.Domain.States.{TripDemandState, RideOfferState}
use smallworld_be.Domain.Models.{Time, TripDemand, RideOffer, DriverSession}
use smallworld_be.Domain.Errors.{Result, ok}
use smallworld_be.Domain.Policies.{require_transition, demand_can_transition}
use smallworld_be.World.{World, Store}
use smallworld_be.World.Frame.{ephemeral_delete-Same}
use smallworld_be.World.Calls.{ephemeral_delete}
use smallworld_be.Memory.{transition_pending, is_pending}
use smallworld_be.Services.Demands.{cancel, canceled_demand}
use smallworld_be.Sweeper.{
  Config, classify, settle, after_transition, is_offered, tell_driver, reopen, sweep_offer,
  reopened_demand,
}
use smallworld_be.Sweeper.Rounds.{IsOver, expired}

-- What a round does about one offer, where it classifies the offer in the world `w` and goes on in
-- the world `u`.
unfoldable pub raced_visit : Config → Time → RideOffer → World → World → Result (Unit {0}) × World
raced_visit c t o w u = settle (classify c t o w) t o u

raced_visit_same :
    (c : Config) (t : Time) (o : RideOffer) (w : World)
    → raced_visit c t o w w ≡ sweep_offer c t o w
unfolding raced_visit sweep_offer
raced_visit_same c t o w = refl

-- The world after a cancellation.
abbrev after_cancel : TripDemand → World → World
after_cancel d w = record w {
  ticks = suc w.ticks;
  store = record w.store {
    trip_demands = put d.id (canceled_demand d (w.clock w.ticks)) w.trip_demands;
  };
}

cancel_offered :
    (d : TripDemand) (w : World)
    → get d.id w.trip_demands ≡ some d
    → d.state ≡ TripDemandState.offered
    → (cancel d.rider_id d.id w).1 ≡ after_cancel d w
unfolding cancel require_transition demand_can_transition
cancel_offered d w g s = ground (arith, eq_iff d.rider_id d.rider_id)

classify_over :
    (c : Config) (t : Time) (o : RideOffer) (w : World)
    → IsOver c t o
    → classify c t o w
      ≡ some (record {
        next = RideOfferState.expired;
        demand = get o.demand_id w.trip_demands;
        session = get o.driver_session_id w.driver_sessions;
      })
unfolding classify
classify_over c t o w h = rw h refl

-- The offer's row is still pending, so the round moves it.
moved_offer :
    (o : RideOffer) (t : Time) (u : World)
    → get o.id u.ride_offers ≡ some o
    → o.state ≡ RideOfferState.pending
    → ((transition_pending o.id RideOfferState.expired t u).0 ≡ ok (expired o t))
      × ((transition_pending o.id RideOfferState.expired t u).1.trip_demands ≡ u.trip_demands)
unfolding transition_pending
moved_offer o t u g p = let q = ap is_pending p in (ground arith, ground arith)

reopen_lem :
    (d : TripDemand) (t : Time) (u : World)
    → d.id ≢ ""
    → d.state ≡ TripDemandState.offered
    → (reopen (some d) t u).1.trip_demands ≡ put d.id (reopened_demand d t) u.trip_demands
unfolding reopened_demand
reopen_lem d t u n s = let q = ap is_offered s in ground (arith, eq_iff d.id "")

-- Telling the driver succeeds and touches no demand.
tell_driver_lem :
    (session : Option DriverSession) (o : RideOffer) (u : World)
    → ((tell_driver session o u).0 ≡ ok tt)
      × ((tell_driver session o u).1.trip_demands ≡ u.trip_demands)
tell_driver_lem none o u = (refl, refl)
tell_driver_lem (some s) o u = (ground arith, ground arith)

after_moved :
    (session : Option DriverSession) (o : RideOffer) (d : TripDemand) (t : Time) (u : World)
    → d.id ≢ ""
    → d.state ≡ TripDemandState.offered
    → (after_transition
        (record { next = RideOfferState.expired; demand = some d; session = session })
        t
        (ok o)
        u).1.trip_demands
      ≡ put d.id (reopened_demand d t) u.trip_demands
after_moved session o d t u n s =
    let v = (ephemeral_delete o.id u).1 in
    let (told, same) = tell_driver_lem session o v in
    rw told (
      reopen_lem d t (tell_driver session o v).1 n s
      ∙ ap (put d.id (reopened_demand d t))
          (same ∙ ap (λ (z : Store). z.trip_demands) (ephemeral_delete-Same o.id u).same_store))

-- An offer that is over and still pending leaves the demand that was read before, in search.
visit_reopens :
    (c : Config) (t : Time) (o : RideOffer) (d : TripDemand) (w u : World)
    → get o.id u.ride_offers ≡ some o
    → o.state ≡ RideOfferState.pending
    → IsOver c t o
    → get o.demand_id w.trip_demands ≡ some d
    → d.id ≢ ""
    → d.state ≡ TripDemandState.offered
    → (raced_visit c t o w u).1.trip_demands ≡ put d.id (reopened_demand d t) u.trip_demands
unfolding raced_visit
visit_reopens c t o d w u g p h e n s =
    let (moved, same) = moved_offer o t u g p in
    rw (classify_over c t o w h) (
      rw (e, moved)
        (after_moved (get o.driver_session_id w.driver_sessions) (expired o t) d t
            (transition_pending o.id RideOfferState.expired t u).1 n s
          ∙ ap (put d.id (reopened_demand d t)) same))

-- A rider's cancellation that comes while a round of the sweeper is at work on the demand's offer is
-- lost: the demand is stored as canceled before the round saves it, and is in search again after.
-- The offer is over and still pending, and the demand offered, when the round reads them. With
-- nothing in between, the visit is that of the sweeper.
pub raced_visit-canceled :
    (c : Config) (t : Time) (o : RideOffer) (d : TripDemand) (w : World)
    → get o.id w.ride_offers ≡ some o
    → o.state ≡ RideOfferState.pending
    → IsOver c t o
    → get o.demand_id w.trip_demands ≡ some d
    → d.id ≡ o.demand_id
    → d.id ≢ ""
    → d.state ≡ TripDemandState.offered
    → let u = (cancel d.rider_id d.id w).1 in
      (raced_visit c t o w w ≡ sweep_offer c t o w)
      × (get d.id u.trip_demands ≡ some (canceled_demand d (w.clock w.ticks)))
      × (get d.id (raced_visit c t o w u).1.trip_demands ≡ some (reopened_demand d t))
raced_visit-canceled c t o d w g p h e i n s =
    let stored : get d.id w.trip_demands ≡ some d = ap (λ k. get k w.trip_demands) i ∙ e in
    let x = canceled_demand d (w.clock w.ticks) in
    let y = reopened_demand d t in
    let v = visit_reopens c t o d w (after_cancel d w) g p h e n s in
    (
      raced_visit_same c t o w,
      rw (cancel_offered d w stored s)
          (ground (arith, get-put d.id d.id x w.trip_demands, eq_iff d.id d.id)),
      rw (cancel_offered d w stored s) (
          ap (get d.id) v
          ∙ ground (arith, get-put d.id d.id y (put d.id x w.trip_demands), eq_iff d.id d.id)),
    )
