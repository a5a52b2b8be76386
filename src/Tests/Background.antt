-- ===== src/Tests/Background.antt =====
-- Runs of the search, the background loops, the fares and the whole program.
use smallworld_be.Prelude.{
  ℕ, suc, ◌+◌, ◌*◌, ◌≡◌, ◌⊎◌, ◌↔◌, refl, some, none, [], ◌∷◌, arith, eq_iff, ltb,
}
use smallworld_be.Prelude.Int.{pos, pos_part, ◌+ℤ◌, ◌-ℤ◌, ◌≤ℤ◌}
use smallworld_be.Prelude.Lists.{All, Among}
use smallworld_be.Prelude.Sort.{sort, IsSorted}
use smallworld_be.Prelude.Table.{get, put, count, values}
use smallworld_be.Domain.Models.{DriverSession, TripDemand, RideOffer, RideBooking, MatchCandidate}
use smallworld_be.Domain.Policies.{can_driver_serve_demand}
use smallworld_be.Domain.Errors.{ok}
use smallworld_be.Domain.Policies.{rider_eligible}
use smallworld_be.Services.Demands.{
  create, open_demand, run_match, list_candidate_sessions, session_verifications, offer_first,
  offer_best, new_offer, new_demand,
}
use smallworld_be.Services.Demands.Replay.{create-create}
use smallworld_be.Services.Demands.Offering.{Offered, Offered-offer_best}
use smallworld_be.World.Calls.{ephemeral_save}
use smallworld_be.Matching.{find_candidates, place}
use smallworld_be.Matching.Candidates.{
  evaluate_candidate, radial_candidates, overlap_score, haversine_meters,
}
use smallworld_be.Matching.Compare.{candidate_before, compare_candidates}
use smallworld_be.Matching.Order.{ranking, find_candidates-IsSorted}
use smallworld_be.Matching.Sound.{find_candidates-Sound, Sound}
use smallworld_be.Matching.Rings.{radial_candidates-points, LiesAt}
use smallworld_be.Sweeper.{Config, sweep_once}
use smallworld_be.Sweeper.Rounds.{sweep_once-expired, expired}
use smallworld_be.World.{World, Floats}
use smallworld_be.Ledger.{Steps}
use smallworld_be.Ledger.Seats.{seats, booked}
use smallworld_be.Ledger.States.{OfferLater, BookingLater}
use smallworld_be.Run.{
  perform, Fresh, WellFormed, Run, begin, call, accept_offer, Run-Steps, Run-offer, Run-booking,
  Run-seats, Run-not_overbooked,
}
use smallworld_be.Ledger.Races.Sweeps.{raced_visit, raced_visit-canceled}
use smallworld_be.Sweeper.{sweep_offer, reopened_demand}
use smallworld_be.Services.Demands.{cancel, canceled_demand}
use smallworld_be.Tests.Fixtures.{
  world, offer, session, demand, riding, spot, floats, env, create_input,
}

-- One candidate: the session, at the rider's own points.
abbrev candidate : MatchCandidate
candidate = record {
  session = session;
  pickup = spot;
  dropoff = spot;
  phase = pos 1;
  driver_pickup_eta_seconds = pos 120;
  rider_walk_eta_seconds = pos 60;
  driver_pickup_detour_meters = pos 900;
  rider_walk_to_pickup_meters = pos 80;
  rider_walk_from_dropoff_meters = pos 80;
  route_overlap_score = 0;
  in_car_distance_meters = pos 900;
  in_car_duration_seconds = pos 120;
}

find_candidates-Sound_example :
    All (Sound demand world.verifications env (session ∷ []) (pos 1)) (candidate ∷ [])
    ⊎ All (Sound demand world.verifications env (session ∷ []) (pos 2)) (candidate ∷ [])
unfolding find_candidates place can_driver_serve_demand evaluate_candidate get sort
find_candidates-Sound_example =
    find_candidates-Sound demand world.verifications (session ∷ []) world (candidate ∷ []) refl

-- Floats that tell scores apart, and two sessions that differ in their score only.
abbrev numbers : Floats
numbers = record floats {
  of_int = pos_part;
  to_int = pos;
  add = λ a b. a + b;
  subtract = λ a b. a + b;
  multiply = λ a b. a + b;
  divide = λ a b. a + b;
  less = ltb;
  sine = λ x. x;
  cosine = λ x. x;
  arcsine = λ x. x;
  square_root = λ x. x;
}

abbrev counted : World
counted = record world { env = record world.env { floats = numbers } }

abbrev far : DriverSession
far = record session { id = "s2"; origin = record { lat = 5; lng = 0 } }

abbrev scored : DriverSession → MatchCandidate
scored s = record candidate { session = s; route_overlap_score = overlap_score numbers s demand }

find_candidates-IsSorted_example :
    IsSorted (ranking numbers demand) (scored far ∷ scored session ∷ [])
unfolding find_candidates place can_driver_serve_demand evaluate_candidate get sort candidate_before
    compare_candidates overlap_score haversine_meters ◌-ℤ◌ ◌+ℤ◌
find_candidates-IsSorted_example =
    find_candidates-IsSorted demand world.verifications (session ∷ far ∷ []) counted
      (scored far ∷ scored session ∷ [])
      (record { asym = λ x y h. ground arith; trans = λ x y z h k. ground arith }) refl

create-create_example :
    let after = (create (create_input "key") world).1 in
    (d : TripDemand) × (d.id ≡ "td")
    × (get d.id after.trip_demands ≡ some d)
    × (create (create_input "key") after ≡ (ok (d, none), after))
unfolding create open_demand rider_eligible run_match list_candidate_sessions session_verifications
    find_candidates place can_driver_serve_demand evaluate_candidate get put sort offer_first
    offer_best new_offer ephemeral_save values
create-create_example =
    create-create (create_input "key") world
      (
        new_demand "td" (create_input "key") (pos 1_000),
        some (record offer {
          id = "offer";
          demand_id = "td";
          created_at = pos 1_000;
          updated_at = pos 1_000;
        }),
      )
      refl refl refl

radial_candidates-points_example : Among spot (radial_candidates floats spot 250 (pos 600)) ↔ (
    (spot ≡ spot)
    ⊎ ((k : ℕ) × (pos (suc k * 250) ≤ℤ pos 600) × LiesAt floats spot (suc k * 250) spot))
radial_candidates-points_example =
    radial_candidates-points floats spot 250 (pos 600) spot (omega arith)

abbrev config : Config
config = record {
  poll_interval = pos 5;
  pending_offer_ttl = pos 500;
  max_driver_session_staleness = pos 0;
}

sweep_once-expired_example :
    get "o1" (sweep_once config world).1.ride_offers ≡ some (expired offer (pos 1_000))
unfolding get ◌-ℤ◌
sweep_once-expired_example =
    sweep_once-expired config world offer (λ k v h. ground (arith, eq_iff "o1" k, eq_iff "o0" k))
      (refl, (refl, tt)) refl refl refl

world-WellFormed : WellFormed world
unfolding get
world-WellFormed = record {
  keyed = record {
    sessions = λ k v h. ground (arith, eq_iff "s1" k);
    demands = λ k v h. ground (arith, eq_iff "t1" k);
    offers = λ k v h. ground (arith, eq_iff "o1" k, eq_iff "o0" k);
    bookings = λ k v h. ground (arith, eq_iff "b1" k, eq_iff "b0" k);
  };
  distinct = (refl, tt);
}

world-Fresh : Fresh world
unfolding get
world-Fresh = record { session = refl; demand = refl; offer = refl; booking = refl }

-- The driver accepts the offer.
abbrev after : World
after = perform (accept_offer "driver" "o1") world

accepting : Run world after
accepting = call begin (accept_offer "driver" "o1") world-Fresh

Run-Steps_example : WellFormed after × Steps world.store after.store
Run-Steps_example = Run-Steps accepting world-WellFormed

Run-offer_example : (o' : RideOffer) × (get "o1" after.ride_offers ≡ some o') × OfferLater offer o'
unfolding get
Run-offer_example = Run-offer "o1" offer accepting world-WellFormed refl

Run-booking_example :
    (b' : RideBooking) × (get "b1" after.ride_bookings ≡ some b') × BookingLater riding b'
unfolding get
Run-booking_example = Run-booking "b1" riding accepting world-WellFormed refl

Run-seats_example :
    (d' : DriverSession) × (get "s1" after.driver_sessions ≡ some d')
    × (seats "s1" d' after.store ≡ seats "s1" session world.store)
unfolding get
Run-seats_example = Run-seats "s1" session accepting world-WellFormed refl

Run-not_overbooked_example : pos (booked "s1" after.ride_bookings) ≤ℤ pos 3
unfolding get seats count ◌+ℤ◌
Run-not_overbooked_example =
    Run-not_overbooked "s1" session accepting world-WellFormed refl (omega arith)

abbrev made : RideOffer
made = record offer { id = "offer"; created_at = pos 1_000; updated_at = pos 1_000 }

Offered-offer_best_example : Offered demand candidate world made
unfolding offer_best ephemeral_save get put
Offered-offer_best_example = Offered-offer_best demand candidate world made refl

raced_visit-canceled_example :
    (raced_visit config (pos 1_000) offer world world ≡ sweep_offer config (pos 1_000) offer world)
    × (get "t1" (cancel "rider" "t1" world).1.trip_demands
        ≡ some (canceled_demand demand (pos 1_000)))
    × (get "t1"
          (raced_visit config (pos 1_000) offer world (cancel "rider" "t1" world).1).1.trip_demands
        ≡ some (reopened_demand demand (pos 1_000)))
unfolding get ◌-ℤ◌
raced_visit-canceled_example =
    raced_visit-canceled config (pos 1_000) offer demand world refl refl refl refl refl
      (λ e. ground (arith, eq_iff "t1" "")) refl
