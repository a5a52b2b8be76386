-- ===== src/Services/Demands/Offering.antt =====
-- The offer that `runMatch` of trip_demand_service.go makes.
use smallworld_be.Prelude.{suc, ◌≡◌, some, arith, eq_iff}
use smallworld_be.Prelude.Table.{get, get-put}
use smallworld_be.Domain.States.{TripDemandState, RideOfferState}
use smallworld_be.Domain.Models.{TripDemand, RideOffer}
use smallworld_be.Domain.Errors.{ok}
use smallworld_be.World.{World}
use smallworld_be.World.Calls.{ephemeral_save}
use smallworld_be.Domain.Models.{MatchCandidate}
use smallworld_be.Services.Demands.{offer_best, new_offer, offered_demand}

-- What an offer that was made is, and what it leaves in the tables.
pub record Offered (demand : TripDemand) (best : MatchCandidate) (w : World) (o : RideOffer)
    : Type 0 where
  pub pending : o.state ≡ RideOfferState.pending
  pub of_demand : o.demand_id ≡ demand.id
  pub of_session : o.driver_session_id ≡ best.session.id
  pub quoted : w.quote best ≡ ok o.fare_cents
  pub stored : get o.id (offer_best demand best w).1.ride_offers ≡ some o
  pub demand_stored :
      get demand.id (offer_best demand best w).1.trip_demands
      ≡ some (record demand {
        state = TripDemandState.offered;
        matched_pickup = some best.pickup;
        matched_dropoff = some best.dropoff;
        updated_at = w.clock (suc (suc w.ticks));
      })

-- When the best candidate is offered a demand, the offer is pending, for that demand and for the
-- candidate's session, at the quoted fare, and it is stored; the demand is stored as offered, with
-- the candidate's pickup and dropoff points.
pub Offered-offer_best :
    (demand : TripDemand) (best : MatchCandidate) (w : World) (o : RideOffer)
    → (offer_best demand best w).0 ≡ ok o
    → Offered demand best w o
unfolding offer_best new_offer offered_demand ephemeral_save
Offered-offer_best demand best w o h =
    let d = offered_demand demand best (w.clock (suc (suc w.ticks))) in
    record {
      pending = ground arith;
      of_demand = ground arith;
      of_session = ground arith;
      quoted = ground arith;
      stored = ground (arith, get-put o.id o.id o w.ride_offers, eq_iff o.id o.id);
      demand_stored =
          ground (arith, get-put demand.id demand.id d w.trip_demands, eq_iff demand.id demand.id);
    }
