-- ===== src/Matching/Limits.antt =====
-- What a candidate of internal/matching/engine.go promises to the rider and the driver.
use smallworld_be.Prelude.{
  ◌≡◌, refl, inl, inr, true, Option, none, some, arith, List, [], ◌∷◌, Bool-cases, subst,
}
use smallworld_be.Prelude.Lists.{All, Among, Among-All}
use smallworld_be.Prelude.Int.{ℤ, pos, ◌≤ℤ◌, ◌+ℤ◌}
use smallworld_be.Domain.Models.{Location, DriverSession, TripDemand, MatchCandidate}
use smallworld_be.Domain.Errors.{Result, ok, err, Result-cases}
use smallworld_be.World.{Env}
use smallworld_be.Matching.Candidates.{
  evaluate_candidate, overlap_score, within_limits, new_candidate, better, try_dropoffs,
  try_pickups, evaluate_walking_candidate, radial_candidates, search_step,
}
use smallworld_be.Matching.{Placement, skip, exact, walk, evaluate, try_walking, walking_placement}

-- The limits of the rider, in meters, of the driver, in meters, and of the rider's arrival at the
-- pickup point, in seconds.
pub record WithinLimits (env : Env) (demand : TripDemand) (c : MatchCandidate) : Type 0 where
  pub walk_to : c.rider_walk_to_pickup_meters ≤ℤ demand.max_walk_to_pickup_meters
  pub walk_from : c.rider_walk_from_dropoff_meters ≤ℤ demand.max_walk_from_dropoff_meters
  pub in_time :
      c.rider_walk_eta_seconds
      ≤ℤ c.driver_pickup_eta_seconds +ℤ env.engine_config.eta_safety_buffer_seconds
  pub detour : c.driver_pickup_detour_meters ≤ℤ c.session.max_driver_pickup_detour_meters

-- The points that the engine tries around one of the rider's points.
abbrev pub points_around : Env → Location → ℤ → List Location
points_around env center max_meters =
    radial_candidates env.floats center (search_step env.engine_config.pickup_search_step_meters)
      max_meters

-- Where a candidate of a phase may be picked up and dropped off: at the rider's own points in the
-- first phase, at points tried around them in the second.
pub data Points (env : Env) (demand : TripDemand) : ℤ → Location → Location → Type 0 where
  own : Points env demand (pos 1) demand.requested_origin demand.requested_destination
  near :
      (p d : Location)
      → Among p (points_around env demand.requested_origin demand.max_walk_to_pickup_meters)
      → Among d (points_around env demand.requested_destination demand.max_walk_from_dropoff_meters)
      → Points env demand (pos 2) p d

-- The times and distances of a candidate are what the routing provider answers for its points.
pub record Measured (env : Env) (demand : TripDemand) (c : MatchCandidate) : Type 0 where
  pub driver :
      env.routing.driving_eta_seconds c.session.current_location c.pickup
      ≡ ok (c.driver_pickup_eta_seconds, c.driver_pickup_detour_meters)
  pub walk :
      env.routing.walking_eta_seconds demand.requested_origin c.pickup
      ≡ ok (c.rider_walk_eta_seconds, c.rider_walk_to_pickup_meters)
  pub dropoff_walk :
      (t : ℤ) × (env.routing.walking_eta_seconds c.dropoff demand.requested_destination
        ≡ ok (t, c.rider_walk_from_dropoff_meters))
  pub in_car :
      env.routing.driving_eta_seconds c.pickup c.dropoff
      ≡ ok (c.in_car_duration_seconds, c.in_car_distance_meters)
  pub overlap : c.route_overlap_score ≡ overlap_score env.floats c.session demand

-- A candidate for a session, of a phase.
pub record CandidateOf (env : Env) (demand : TripDemand) (session : DriverSession) (phase : ℤ)
    (c : MatchCandidate) : Type 0 where
  pub limits : WithinLimits env demand c
  pub points : Points env demand phase c.pickup c.dropoff
  pub measured : Measured env demand c
  pub same_session : c.session ≡ session
  pub same_phase : c.phase ≡ phase

abbrev pub AllOption : {A : Type 0} → (A → Type 0) → Option A → Type 0
AllOption P none = Unit
AllOption P (some a) = P a

abbrev pub AllResult : {A : Type 0} → (A → Type 0) → Result A → Type 0
AllResult P (ok a) = P a
AllResult P (err e) = Unit

module _ (env : Env) (demand : TripDemand) (session : DriverSession) where
  abbrev Good : ℤ → Result (Option MatchCandidate) → Type 0
  Good phase = AllResult (AllOption (CandidateOf env demand session phase))

  new_candidate-CandidateOf :
      (pickup dropoff : Location) (phase : ℤ) (driver rider dropoff_walk in_car : ℤ × ℤ)
      → within_limits env demand session driver rider dropoff_walk ≡ true
      → Points env demand phase pickup dropoff
      → env.routing.driving_eta_seconds session.current_location pickup ≡ ok driver
      → env.routing.walking_eta_seconds demand.requested_origin pickup ≡ ok rider
      → env.routing.walking_eta_seconds dropoff demand.requested_destination ≡ ok dropoff_walk
      → env.routing.driving_eta_seconds pickup dropoff ≡ ok in_car
      → CandidateOf env demand session phase
          (new_candidate env demand session pickup dropoff phase driver rider dropoff_walk in_car)
  unfolding new_candidate within_limits
  new_candidate-CandidateOf pickup dropoff phase driver rider dropoff_walk in_car h p e1 e2 e3 e4 =
      record {
        limits = record {
          walk_to = ground arith;
          walk_from = ground arith;
          in_time = ground arith;
          detour = ground arith;
        };
        points = p;
        measured = record {
          driver = e1;
          walk = e2;
          dropoff_walk = (dropoff_walk.0, e3);
          in_car = e4;
          overlap = refl;
        };
        same_session = refl;
        same_phase = refl;
      }

  evaluate_candidate-Good :
      (pickup dropoff : Location) (phase : ℤ)
      → Points env demand phase pickup dropoff
      → Good phase (evaluate_candidate env demand session pickup dropoff phase)
  unfolding evaluate_candidate
  evaluate_candidate-Good pickup dropoff phase points =
      elim (Result-cases (env.routing.driving_eta_seconds session.current_location pickup)) [
        | inr (e, h) ↦ rw h tt
        | inl (driver, h1) ↦
            elim (Result-cases (env.routing.walking_eta_seconds demand.requested_origin pickup)) [
              | inr (e, h) ↦ rw (h1, h) tt
              | inl (rider, h2) ↦
                  elim (Result-cases
                    (env.routing.walking_eta_seconds dropoff demand.requested_destination)) [
                      | inr (e, h) ↦ rw (h1, h2, h) tt
                      | inl (dropoff_walk, h3) ↦
                          elim (Bool-cases
                            (within_limits env demand session driver rider dropoff_walk)) [
                              | inr f ↦ rw (h1, h2, h3, f) tt
                              | inl t ↦
                                  elim (Result-cases
                                    (env.routing.driving_eta_seconds pickup dropoff)) [
                                      | inr (e, h) ↦ rw (h1, h2, h3, t, h) tt
                                      | inl (in_car, h4) ↦
                                          rw (h1, h2, h3, t, h4)
                                            (new_candidate-CandidateOf pickup dropoff phase driver
                                              rider dropoff_walk in_car t points h1 h2 h3 h4)
                                    ]
                            ]
                    ]
            ]
      ]

  better-AllOption :
      (P : MatchCandidate → Type 0) (best c : Option MatchCandidate)
      → AllOption P best
      → AllOption P c
      → AllOption P (better env.floats best c)
  unfolding better
  better-AllOption P best c b h = ground arith

  try_dropoffs-Good :
      (pickup : Location) (ds : List Location) (best : Option MatchCandidate)
      → All (Points env demand (pos 2) pickup) ds
      → AllOption (CandidateOf env demand session (pos 2)) best
      → Good (pos 2) (try_dropoffs env demand session pickup ds best)
  unfolding try_dropoffs
  try_dropoffs-Good pickup [] best a b = b
  try_dropoffs-Good pickup (d ∷ ds) best a b =
      let here = evaluate_candidate-Good pickup d (pos 2) a.0 in
      elim (Result-cases (evaluate_candidate env demand session pickup d (pos 2))) [
        | inr (e, h) ↦ rw h tt
        | inl (c, h) ↦ rw h (
            try_dropoffs-Good pickup ds (better env.floats best c) a.1
              (better-AllOption _ best c b (subst (Good (pos 2)) h here)))
      ]

  try_pickups-Good :
      (ps ds : List Location) (best : Option MatchCandidate)
      → All (λ p. All (Points env demand (pos 2) p) ds) ps
      → AllOption (CandidateOf env demand session (pos 2)) best
      → Good (pos 2) (try_pickups env demand session ps ds best)
  unfolding try_pickups
  try_pickups-Good [] ds best a b = b
  try_pickups-Good (p ∷ ps) ds best a b =
      let here = try_dropoffs-Good p ds best a.0 b in
      elim (Result-cases (try_dropoffs env demand session p ds best)) [
        | inr (e, h) ↦ rw h tt
        | inl (c, h) ↦ rw h (try_pickups-Good ps ds c a.1 (subst (Good (pos 2)) h here))
      ]

  evaluate_walking_candidate-Good : Good (pos 2) (evaluate_walking_candidate env demand session)
  unfolding evaluate_walking_candidate
  evaluate_walking_candidate-Good =
      let ps = points_around env demand.requested_origin demand.max_walk_to_pickup_meters in
      let ds = points_around env demand.requested_destination demand.max_walk_from_dropoff_meters in
      try_pickups-Good ps ds none (Among-All _ ps (λ p m. Among-All _ ds (λ d k. near p d m k))) tt

  -- What a session is placed as: the first phase at the rider's own points, or the second.
  abbrev pub Placed : Placement → Type 0
  Placed skip = Unit
  Placed (exact c) = CandidateOf env demand session (pos 1) c
  Placed (walk c) = CandidateOf env demand session (pos 2) c

  try_walking-Placed :
      (c : Option MatchCandidate)
      → AllOption (CandidateOf env demand session (pos 1)) c
      → AllResult Placed (try_walking env demand session c)
  try_walking-Placed (some c) a = a
  try_walking-Placed none a =
      walking_result (evaluate_walking_candidate env demand session) evaluate_walking_candidate-Good
    where
      walking_result :
          (r : Result (Option MatchCandidate))
          → Good (pos 2) r
          → AllResult Placed (elim r [ ok c ↦ ok (walking_placement c) | err e ↦ err e ])
      walking_result (err e) g = tt
      walking_result (ok none) g = tt
      walking_result (ok (some c)) g = g

  pub evaluate-Placed : AllResult Placed (evaluate env demand session)
  unfolding evaluate
  evaluate-Placed =
      own_points
        (evaluate_candidate env demand session demand.requested_origin demand.requested_destination
          (pos 1))
        (evaluate_candidate-Good demand.requested_origin demand.requested_destination (pos 1) own)
    where
      own_points :
          (r : Result (Option MatchCandidate))
          → Good (pos 1) r
          → AllResult Placed (elim r [ ok c ↦ try_walking env demand session c | err e ↦ err e ])
      own_points (err e) g = tt
      own_points (ok c) g = try_walking-Placed c g
