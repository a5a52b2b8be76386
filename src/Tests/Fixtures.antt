-- ===== src/Tests/Fixtures.antt =====
-- A world with one driver, one rider, a session, a demand, an offer and two bookings.
use smallworld_be.Prelude.{String, true, false, none, [], ◌∷◌}
use smallworld_be.Prelude.Int.{pos}
use smallworld_be.Domain.States.{
  Gender, VerificationStatus, TripDemandState, RideOfferState, RideBookingState, DriverSessionState,
}
use smallworld_be.Domain.Models.{
  Location, IdentityVerification, Vehicle, DriverSession, TripDemand, RideOffer, RideBooking,
}
use smallworld_be.Domain.Errors.{ok}
use smallworld_be.World.{Store, Env, World, Floats, RoutePlan}
use smallworld_be.Services.Inputs.{StartDriverSessionInput, CreateTripDemandInput}
use smallworld_be.Memory.{new_store}

abbrev pub spot : Location
spot = record { lat = 0; lng = 0 }

abbrev pub plan : RoutePlan
plan = record { distance_meters = pos 9_000; duration_seconds = pos 600; polyline = "line" }

abbrev pub floats : Floats
floats = record {
  of_int = λ x. 0;
  to_int = λ x. pos 0;
  add = λ a b. 0;
  subtract = λ a b. 0;
  multiply = λ a b. 0;
  divide = λ a b. 0;
  less = λ a b. false;
  pi = 0;
  sine = λ x. 0;
  cosine = λ x. 0;
  arcsine = λ x. 0;
  square_root = λ x. 0;
}

-- Ids name their kind only; a test draws one of a kind at most.
abbrev pub env : Env
env = record {
  clock = λ n. pos 1_000;
  new_id = λ n prefix. prefix;
  hash_string = λ s. s;
  marshal_start = λ i. i.vehicle_id;
  marshal_create = λ i. i.rider_id;
  routing = record {
    route = λ a b. ok plan;
    walking_eta_seconds = λ a b. ok (pos 60, pos 80);
    driving_eta_seconds = λ a b. ok (pos 120, pos 900);
  };
  floats = floats;
  engine_config = record {
    max_driver_session_staleness_seconds = pos 0;
    eta_safety_buffer_seconds = pos 30;
    pickup_search_step_meters = pos 250;
  };
  quote = λ c. ok (pos 500);
  presence = none;
  ephemeral = none;
  acceptor = none;
  has_realtime = true;
}

abbrev pub verification : String → IdentityVerification
verification user = record {
  user_id = user;
  status = VerificationStatus.verified;
  provider = "p";
  provider_ref = "r";
  verified_gender = Gender.female;
  verified_at = none;
  updated_at = pos 0;
}

abbrev pub car : Vehicle
car = record {
  id = "car";
  user_id = "driver";
  make = "m";
  model = "n";
  color = "c";
  license_plate = "ABC";
  capacity = pos 2;
  is_active = true;
  created_at = pos 0;
}

abbrev pub session : DriverSession
session = record {
  id = "s1";
  driver_id = "driver";
  vehicle_id = "car";
  state = DriverSessionState.active;
  origin = spot;
  destination = spot;
  current_location = spot;
  remaining_capacity = pos 1;
  max_driver_pickup_detour_meters = pos 1_000;
  route_distance_meters = pos 9_000;
  route_duration_seconds = pos 600;
  route_polyline = "line";
  last_heartbeat_at = pos 900;
  created_at = pos 0;
  updated_at = pos 0;
}

abbrev pub demand : TripDemand
demand = record {
  id = "t1";
  rider_id = "rider";
  state = TripDemandState.offered;
  requested_origin = spot;
  requested_destination = spot;
  matched_pickup = none;
  matched_dropoff = none;
  women_drivers_only = true;
  max_walk_to_pickup_meters = pos 400;
  max_walk_from_dropoff_meters = pos 400;
  idempotency_key = "";
  created_at = pos 0;
  updated_at = pos 0;
}

abbrev pub offer : RideOffer
offer = record {
  id = "o1";
  demand_id = "t1";
  driver_session_id = "s1";
  state = RideOfferState.pending;
  detour_meters = pos 900;
  pickup_eta_seconds = pos 120;
  fare_cents = pos 500;
  created_at = pos 100;
  updated_at = pos 100;
}

abbrev pub old_offer : RideOffer
old_offer = record offer { id = "o0"; state = RideOfferState.declined }

abbrev pub booking : String → RideBookingState → RideBooking
booking id state = record {
  id = id;
  demand_id = "t0";
  driver_session_id = "s1";
  rider_id = "rider";
  driver_id = "driver";
  state = state;
  matched_pickup = spot;
  matched_dropoff = spot;
  rider_walk_to_pickup_m = pos 0;
  rider_walk_from_dropoff_m = pos 0;
  driver_pickup_detour_m = pos 0;
  quoted_fare_cents = pos 500;
  vehicle_license_plate = "ABC";
  created_at = pos 0;
  updated_at = pos 0;
}

abbrev pub riding : RideBooking
riding = booking "b1" RideBookingState.onboard

abbrev pub done : RideBooking
done = booking "b0" RideBookingState.completed

abbrev pub store : Store
store = record new_store {
  verifications = ("driver", verification "driver") ∷ ("rider", verification "rider") ∷ [];
  vehicles = ("car", car) ∷ [];
  driver_sessions = ("s1", session) ∷ [];
  trip_demands = ("t1", demand) ∷ [];
  ride_offers = ("o1", offer) ∷ ("o0", old_offer) ∷ [];
  ride_bookings = ("b1", riding) ∷ ("b0", done) ∷ [];
  idempotency = ("known", record { resource_id = "t1"; payload_hash = "rider" }) ∷ [];
}

abbrev pub world : World
world = record { store = store; env = env; ticks = 0; seq = 0; outbox = [] }

abbrev pub start_input : String → StartDriverSessionInput
start_input key = record {
  user_id = "driver";
  vehicle_id = "car";
  origin = spot;
  destination = spot;
  current_location = spot;
  max_driver_pickup_detour_meters = pos 1_000;
  idempotency_key = key;
}

abbrev pub create_input : String → CreateTripDemandInput
create_input key = record {
  rider_id = "rider";
  requested_origin = spot;
  requested_destination = spot;
  women_drivers_only = true;
  max_walk_to_pickup_meters = pos 400;
  max_walk_from_dropoff_meters = pos 400;
  idempotency_key = key;
}
