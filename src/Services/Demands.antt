-- ===== src/Services/Demands.antt =====
-- internal/application/service/trip_demand_service.go. The routing provider, the pricing service
-- and the matching engine's settings are fields of `Env`.
pub mod Opening
pub mod Replay
pub mod Offering
use smallworld_be.Prelude.{
  String, ◌==◌, not, ◌&&◌, Option, none, some, List, [], ◌∷◌, if◌then◌else◌,
}
use smallworld_be.Prelude.Table.{Table, empty, get, put}
use smallworld_be.Prelude.Int.{ℤ}
use smallworld_be.Domain.States.{TripDemandState, RideOfferState, demand_text}
use smallworld_be.Domain.Models.{
  Time, IdentityVerification, DriverSession, TripDemand, RideOffer, MatchCandidate,
}
use smallworld_be.Domain.Errors.{
  Error, Result, ok, err, unauthorized, idempotency_conflict, verification_required,
  no_candidate_found, women_only_requires_verified_female_rider,
}
use smallworld_be.Domain.Policies.{
  is_female, rider_eligible, demand_can_transition, require_transition,
}
use smallworld_be.World.{
  World, Payload, IdempotencyRecord, DriverPresenceStore, list_active_sessions,
}
use smallworld_be.World.Exec.{Exec, pure, fail, lift, require, ◌>>=◌, ◌>>◌}
use smallworld_be.World.Calls.{now, next_id, sent, push_driver_offer, publish, ephemeral_save}
use smallworld_be.Memory.{
  find_demand, save_demand, save_offer, find_verification, list_active, find_active_demand,
}
use smallworld_be.Matching.{find_candidates}
use smallworld_be.Services.Inputs.{CreateTripDemandInput}
use smallworld_be.Services.Sessions.{known_result, remember}

-- if err == nil && len(sessions) > 0 { return sessions, nil }; otherwise the stored sessions
abbrev or_stored : Option Error → List DriverSession → Exec (List DriverSession)
or_stored none (s ∷ ss) w = (ok (s ∷ ss), w)
or_stored _ _ w = list_active w

abbrev ask_presence : Option DriverPresenceStore → Exec (List DriverSession)
ask_presence none w = list_active w
ask_presence (some p) w =
    or_stored (p.failure w.outbox list_active_sessions) (p.active_sessions w.outbox)
      (sent list_active_sessions w)

unfoldable pub list_candidate_sessions : Exec (List DriverSession)
unfolding list_active
list_candidate_sessions w = ask_presence w.presence w

-- The loop that looks up each driver's verification and skips a driver without one.
unfoldable pub session_verifications :
    Table IdentityVerification
    → List DriverSession
    → Table IdentityVerification
    → Table IdentityVerification
session_verifications known [] out = out
session_verifications known (s ∷ ss) out =
    session_verifications known ss
      (elim (get s.driver_id known) [ none ↦ out | some v ↦ put s.driver_id v out ])

unfoldable pub new_offer : String → TripDemand → MatchCandidate → ℤ → Time → Time → RideOffer
new_offer id demand best fare created updated = record {
  id = id;
  demand_id = demand.id;
  driver_session_id = best.session.id;
  state = RideOfferState.pending;
  detour_meters = best.driver_pickup_detour_meters;
  pickup_eta_seconds = best.driver_pickup_eta_seconds;
  fare_cents = fare;
  created_at = created;
  updated_at = updated;
}

unfoldable pub offered_demand : TripDemand → MatchCandidate → Time → TripDemand
offered_demand d best t = record d {
  state = TripDemandState.offered;
  matched_pickup = some best.pickup;
  matched_dropoff = some best.dropoff;
  updated_at = t;
}

-- `runMatch` from the choice of the best candidate on.
unfoldable pub offer_best : TripDemand → MatchCandidate → Exec RideOffer
unfolding new_offer offered_demand
offer_best demand best = do
  fare ← (λ w. (w.quote best, w))
  id ← next_id "offer"
  created ← now
  updated ← now
  let offer = new_offer id demand best fare created updated
  save_offer offer
  t ← now
  save_demand (offered_demand demand best t)
  push_driver_offer best.session.driver_id offer
  publish best.session.driver_id "ride_offer.pending" (Payload.offer offer)
  ephemeral_save offer
  pure offer

-- if len(candidates) == 0 { return nil, domain.ErrNoCandidateFound }; best := candidates[0]
unfoldable pub offer_first : TripDemand → List MatchCandidate → Exec RideOffer
unfolding offer_best
offer_first demand [] = fail no_candidate_found
offer_first demand (best ∷ _) = offer_best demand best

unfoldable pub run_match : TripDemand → Exec RideOffer
unfolding list_candidate_sessions session_verifications find_candidates offer_first
run_match demand = do
  sessions ← list_candidate_sessions
  candidates ←
      λ w. find_candidates demand (session_verifications w.verifications sessions empty) sessions w
  offer_first demand candidates

unfoldable pub new_demand : String → CreateTripDemandInput → Time → TripDemand
new_demand id input t = record {
  id = id;
  rider_id = input.rider_id;
  state = TripDemandState.searching;
  requested_origin = input.requested_origin;
  requested_destination = input.requested_destination;
  matched_pickup = none;
  matched_dropoff = none;
  women_drivers_only = input.women_drivers_only;
  max_walk_to_pickup_meters = input.max_walk_to_pickup_meters;
  max_walk_from_dropoff_meters = input.max_walk_from_dropoff_meters;
  idempotency_key = input.idempotency_key;
  created_at = t;
  updated_at = t;
}

-- if err != nil && err != domain.ErrNoCandidateFound { return …, err }; return demand, offer, nil
abbrev match_outcome : TripDemand → Result RideOffer → Result (TripDemand × Option RideOffer)
match_outcome demand (ok offer) = ok (demand, some offer)
match_outcome demand (err no_candidate_found) = ok (demand, none)
match_outcome demand (err e) = err e

unfoldable pub match_new : TripDemand → Exec (TripDemand × Option RideOffer)
unfolding run_match
match_new demand w = (match_outcome demand (run_match demand w).0, (run_match demand w).1)

abbrev pub payload_hash : CreateTripDemandInput → World → String
payload_hash input w = w.hash_string (w.marshal_create input)

-- `Create` from the lookup of the verification to the record of the idempotency key.
unfoldable pub open_demand : CreateTripDemandInput → Exec TripDemand
unfolding new_demand
open_demand input = do
  verification ← find_verification input.rider_id
  require (rider_eligible verification) verification_required
  require (not (input.women_drivers_only && not (is_female verification.verified_gender)))
      women_only_requires_verified_female_rider
  t ← now
  id ← next_id "td"
  let demand = new_demand id input t
  save_demand demand
  hash ← (λ w. (ok (payload_hash input w), w))
  remember input.idempotency_key demand.id hash
  pure demand

unfoldable pub create_new : CreateTripDemandInput → Exec (TripDemand × Option RideOffer)
unfolding open_demand match_new
create_new input = do demand ← open_demand input; match_new demand

abbrev replay_demand : String → IdempotencyRecord → Exec (TripDemand × Option RideOffer)
replay_demand hash known w =
    let replay : Exec (TripDemand × Option RideOffer) = do
      demand ← find_demand known.resource_id
      pure (demand, none)
    in if known.payload_hash == hash then replay w else (err idempotency_conflict, w)

unfoldable pub create_or_replay :
    Option IdempotencyRecord → CreateTripDemandInput → Exec (TripDemand × Option RideOffer)
unfolding create_new
create_or_replay none input = create_new input
create_or_replay (some known) input = λ w. replay_demand (payload_hash input w) known w

unfoldable pub create : CreateTripDemandInput → Exec (TripDemand × Option RideOffer)
unfolding create_or_replay
create input w = create_or_replay (known_result input.idempotency_key w) input w

unfoldable pub canceled_demand : TripDemand → Time → TripDemand
canceled_demand d t = record d { state = TripDemandState.canceled; updated_at = t }

unfoldable pub cancel : String → String → Exec TripDemand
unfolding canceled_demand
cancel rider_id demand_id = do
  demand ← find_demand demand_id
  require (demand.rider_id == rider_id) unauthorized
  lift (
      require_transition "trip_demand" (demand_text demand.state)
        (demand_can_transition demand.state TripDemandState.canceled)
        (demand_text TripDemandState.canceled))
  t ← now
  save_demand (canceled_demand demand t)
  pure (canceled_demand demand t)

unfoldable pub get_for_rider : String → String → Exec TripDemand
get_for_rider rider_id demand_id = do
  demand ← find_demand demand_id
  require (demand.rider_id == rider_id) unauthorized
  pure demand

unfoldable pub get_current_for_rider : String → Exec TripDemand
unfolding find_active_demand
get_current_for_rider rider_id = find_active_demand rider_id
