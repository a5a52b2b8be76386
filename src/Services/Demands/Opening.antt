-- ===== src/Services/Demands/Opening.antt =====
-- Who may open and cancel a demand, and idempotency keys of `Create`, by trip_demand_service.go.
use smallworld_be.Prelude.{
  String, ◌==◌, ◌≡◌, ◌≢◌, ◌⊎◌, inl, inr, true, false, none, some, arith, eq_iff, Option-cases,
  if◌then◌else◌,
}
use smallworld_be.Prelude.Table.{get, put, get-put}
use smallworld_be.Domain.States.{Gender, TripDemandState}
use smallworld_be.Domain.Models.{TripDemand, IdentityVerification}
use smallworld_be.Domain.Errors.{
  Error, ok, err, Result-cases, idempotency_conflict, no_candidate_found,
}
use smallworld_be.Domain.Policies.{demand_can_transition, require_transition}
use smallworld_be.World.{World, IdempotencyRecord}
use smallworld_be.Domain.Policies.{is_verified, rider_eligible}
use smallworld_be.Services.Inputs.{CreateTripDemandInput}
use smallworld_be.Services.Demands.{
  create, create_or_replay, create_new, match_new, open_demand, new_demand, payload_hash, cancel,
  canceled_demand,
}

-- What an opened demand found and holds.
pub record Opened (i : CreateTripDemandInput) (w : World) (d : TripDemand) : Type 0 where
  pub verification : IdentityVerification
  pub has_verification : get i.rider_id w.verifications ≡ some verification
  pub verified : is_verified verification ≡ true
  pub women_only : (i.women_drivers_only ≡ false) ⊎ (verification.verified_gender ≡ Gender.female)
  pub same_limit : d.women_drivers_only ≡ i.women_drivers_only
  pub of_rider : d.rider_id ≡ i.rider_id
  pub searching : d.state ≡ TripDemandState.searching
  pub stored : get d.id (open_demand i w).1.trip_demands ≡ some d

-- A demand is opened only for a verified rider, and with women drivers only just for a rider who is
-- verified as female; it is stored, in search, for that rider.
pub Opened-open_demand :
    (i : CreateTripDemandInput) (w : World) (d : TripDemand)
    → (open_demand i w).0 ≡ ok d
    → Opened i w d
unfolding open_demand new_demand rider_eligible
Opened-open_demand i w d h = elim (Option-cases (get i.rider_id w.verifications)) [
  | inl e ↦ absurd (ground arith)
  | inr (v, hv) ↦ record {
    verification = v;
    has_verification = hv;
    verified = ground arith;
    women_only = ground arith;
    same_limit = ground arith;
    of_rider = ground arith;
    searching = ground arith;
    stored = ground (arith, get-put d.id d.id d w.trip_demands, eq_iff d.id d.id);
  }
]

-- What a cancellation found and returned.
pub record Canceled (rider id : String) (w : World) (d' : TripDemand) : Type 0 where
  pub demand : TripDemand
  pub has_demand : get id w.trip_demands ≡ some demand
  pub by_rider : demand.rider_id ≡ rider
  pub allowed : demand_can_transition demand.state TripDemandState.canceled ≡ true
  pub result : d' ≡ record demand { state = TripDemandState.canceled; updated_at = w.clock w.ticks }
  pub written :
      (cancel rider id w).1.store
      ≡ record w.store { trip_demands = put demand.id d' w.trip_demands }

Canceled-cancel :
    (rider id : String) (w : World) (d' : TripDemand)
    → (cancel rider id w).0 ≡ ok d'
    → Canceled rider id w d'
unfolding cancel canceled_demand require_transition
Canceled-cancel rider id w d' h = elim (Option-cases (get id w.trip_demands)) [
  | inl e ↦ absurd (ground arith)
  | inr (d, hd) ↦ record {
    demand = d;
    has_demand = hd;
    by_rider = ground (arith, eq_iff d.rider_id rider);
    allowed = ground arith;
    result = ground arith;
    written = ground arith;
  }
]

cancel-error :
    (rider id : String) (w : World) (e : Error)
    → (cancel rider id w).0 ≡ err e
    → (cancel rider id w).1 ≡ w
unfolding cancel require_transition
cancel-error rider id w e h = ground arith

-- Canceling a demand either fails and changes nothing, or was asked by the demand's rider from a
-- state that may be canceled, and then writes the demand back as canceled and no other row.
pub cancel-cases :
    (rider id : String) (w : World)
    → ((e : Error) × ((cancel rider id w).0 ≡ err e) × ((cancel rider id w).1 ≡ w))
      ⊎ ((d' : TripDemand) × ((cancel rider id w).0 ≡ ok d') × Canceled rider id w d')
cancel-cases rider id w = elim (Result-cases (cancel rider id w).0) [
  | inl (d', h) ↦ inr (d', h, Canceled-cancel rider id w d' h)
  | inr (e, h) ↦ inl (e, h, cancel-error rider id w e h)
]

-- A request for a demand whose idempotency key holds a stored demand.
create-known :
    (i : CreateTripDemandInput) (w : World) (d : TripDemand) (r : IdempotencyRecord)
    → (i.idempotency_key == "") ≡ false
    → get i.idempotency_key w.idempotency ≡ some r
    → get r.resource_id w.trip_demands ≡ some d
    → create i w ≡ (
        if r.payload_hash == payload_hash i w
        then (ok (d, none), w)
        else (err idempotency_conflict, w))
unfolding create create_or_replay
create-known i w d r k g h = ground arith

-- A demand without a candidate is no error of `create`.
pub create-no_candidate :
    (i : CreateTripDemandInput) (w : World) → (create i w).0 ≢ err no_candidate_found
unfolding create create_or_replay create_new open_demand match_new
create-no_candidate i w h = ground arith
