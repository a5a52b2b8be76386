-- ===== src/Matching/Candidates.antt =====
-- The evaluation of one session in internal/matching/engine.go: for the rider's own points, and
-- for points within the rider's walking distance.
use smallworld_be.Prelude.{
  ℕ, zero, suc, ◌+◌, Bool, true, false, not, ◌||◌, Option, none, some, List, [], ◌∷◌, ◌++◌, leb,
  if◌then◌else◌,
}
use smallworld_be.Prelude.Int.{ℤ, pos, pos_part, ◌+ℤ◌, ltb_ℤ, leb_ℤ}
use smallworld_be.Domain.Models.{Float64, Location, DriverSession, TripDemand, MatchCandidate}
use smallworld_be.Domain.Errors.{Result, ok, err}
use smallworld_be.World.{Env, Floats}
use smallworld_be.Matching.Compare.{candidate_before}

infixl 10 ◌>>=◌
abbrev pub ◌>>=◌ {ℓ κ} : {A : Type ℓ} {B : Type κ} → Result A → (A → Result B) → Result B
ok a >>= f = f a
err e >>= f = err e

unfoldable pub haversine_meters : Floats → Location → Location → ℤ
haversine_meters f a b =
    let radians = λ (x : Float64). f.divide (f.multiply x f.pi) (f.of_int (pos 180)) in
    let half_sine = λ (x : Float64). f.sine (f.divide (radians x) (f.of_int (pos 2))) in
    let sin_lat = half_sine (f.subtract b.lat a.lat) in
    let sin_lng = half_sine (f.subtract b.lng a.lng) in
    let cosines = f.multiply (f.cosine (radians a.lat)) (f.cosine (radians b.lat)) in
    let h = f.add (f.multiply sin_lat sin_lat) (f.multiply (f.multiply cosines sin_lng) sin_lng) in
    f.to_int (f.multiply (f.of_int (pos 12_742_000)) (f.arcsine (f.square_root h)))

unfoldable pub overlap_score : Floats → DriverSession → TripDemand → Float64
unfolding haversine_meters ◌+ℤ◌
overlap_score f session demand =
    let pickup = haversine_meters f session.origin demand.requested_origin in
    let destination = haversine_meters f session.destination demand.requested_destination in
    f.divide (f.of_int (pos 1)) (f.of_int (pos 1 +ℤ pickup +ℤ destination))

-- The four points at a distance north, south, east and west.
unfoldable pub ring : Floats → Location → ℕ → List Location
ring f center meters =
    let delta = f.divide (f.of_int (pos meters)) (f.of_int (pos 111_320)) in
    record { lat = f.add center.lat delta; lng = center.lng }
    ∷ record { lat = f.subtract center.lat delta; lng = center.lng }
    ∷ record { lat = center.lat; lng = f.add center.lng delta }
    ∷ record { lat = center.lat; lng = f.subtract center.lng delta }
    ∷ []

-- for meters := stepMeters; meters <= maxMeters; meters += stepMeters
unfoldable pub rings : Floats → Location → ℕ → ℕ → ℕ → ℕ → List Location
rings f center step max_meters zero meters = []
rings f center step max_meters (suc fuel) meters =
    let more = ring f center meters ++ rings f center step max_meters fuel (meters + step) in
    if leb meters max_meters then more else []

-- The loop ends within `max_meters` rounds, since a step is a meter at least.
unfoldable pub radial_candidates : Floats → Location → ℕ → ℤ → List Location
unfolding rings ring
radial_candidates f center step max_meters =
    let limit = pos_part max_meters in
    if leb_ℤ max_meters (pos 0) then center ∷ [] else center ∷ rings f center step limit limit step

-- Whether the rider's walks, the rider's arrival and the driver's detour are within the limits.
unfoldable pub within_limits : Env → TripDemand → DriverSession → ℤ × ℤ → ℤ × ℤ → ℤ × ℤ → Bool
unfolding ◌+ℤ◌
within_limits env demand session driver walk dropoff_walk =
    if ltb_ℤ demand.max_walk_to_pickup_meters walk.1
      || ltb_ℤ demand.max_walk_from_dropoff_meters dropoff_walk.1
    then false
    else if ltb_ℤ (driver.0 +ℤ env.engine_config.eta_safety_buffer_seconds) walk.0
    then false
    else if ltb_ℤ session.max_driver_pickup_detour_meters driver.1
    then false
    else true

unfoldable pub new_candidate :
    Env
    → TripDemand
    → DriverSession
    → Location
    → Location
    → ℤ
    → ℤ × ℤ
    → ℤ × ℤ
    → ℤ × ℤ
    → ℤ × ℤ
    → MatchCandidate
unfolding overlap_score
new_candidate env demand session pickup dropoff phase driver walk dropoff_walk in_car = record {
  session = session;
  pickup = pickup;
  dropoff = dropoff;
  phase = phase;
  driver_pickup_eta_seconds = driver.0;
  rider_walk_eta_seconds = walk.0;
  driver_pickup_detour_meters = driver.1;
  rider_walk_to_pickup_meters = walk.1;
  rider_walk_from_dropoff_meters = dropoff_walk.1;
  route_overlap_score = overlap_score env.floats session demand;
  in_car_distance_meters = in_car.1;
  in_car_duration_seconds = in_car.0;
}

unfoldable pub evaluate_candidate :
    Env → TripDemand → DriverSession → Location → Location → ℤ → Result (Option MatchCandidate)
unfolding within_limits new_candidate
evaluate_candidate env demand session pickup dropoff phase = do
  driver ← env.routing.driving_eta_seconds session.current_location pickup
  walk ← env.routing.walking_eta_seconds demand.requested_origin pickup
  dropoff_walk ← env.routing.walking_eta_seconds dropoff demand.requested_destination
  if not (within_limits env demand session driver walk dropoff_walk) then ok none else do
    in_car ← env.routing.driving_eta_seconds pickup dropoff
    ok (
        some
          (new_candidate env demand session pickup dropoff phase driver walk dropoff_walk in_car))

-- if !found || compareCandidates(candidate, best) < 0 { best = candidate; found = true }
unfoldable pub better :
    Floats → Option MatchCandidate → Option MatchCandidate → Option MatchCandidate
better floats best none = best
better floats none (some c) = some c
better floats (some b) (some c) = if candidate_before floats c b then some c else some b

unfoldable pub try_dropoffs :
    Env
    → TripDemand
    → DriverSession
    → Location
    → List Location
    → Option MatchCandidate
    → Result (Option MatchCandidate)
unfolding better
try_dropoffs env demand session pickup [] best = ok best
try_dropoffs env demand session pickup (d ∷ ds) best = do
  candidate ← evaluate_candidate env demand session pickup d (pos 2)
  try_dropoffs env demand session pickup ds (better env.floats best candidate)

unfoldable pub try_pickups :
    Env
    → TripDemand
    → DriverSession
    → List Location
    → List Location
    → Option MatchCandidate
    → Result (Option MatchCandidate)
unfolding try_dropoffs
try_pickups env demand session [] dropoffs best = ok best
try_pickups env demand session (p ∷ ps) dropoffs best = do
  best' ← try_dropoffs env demand session p dropoffs best
  try_pickups env demand session ps dropoffs best'

-- step := PickupSearchStepMeters; if step <= 0 { step = 250 }
abbrev pub search_step : ℤ → ℕ
search_step step = if leb_ℤ step (pos 0) then 250 else pos_part step

unfoldable pub evaluate_walking_candidate :
    Env → TripDemand → DriverSession → Result (Option MatchCandidate)
unfolding try_pickups radial_candidates
evaluate_walking_candidate env demand session =
    let step = search_step env.engine_config.pickup_search_step_meters in
    let around = radial_candidates env.floats in
    try_pickups env demand session
      (around demand.requested_origin step demand.max_walk_to_pickup_meters)
      (around demand.requested_destination step demand.max_walk_from_dropoff_meters) none
