-- ===== src/Domain/Models.antt =====
-- internal/domain/models.go: the entities, and how far the rider's preferences let a match reach.
-- A `float64` is its 64-bit pattern, a number that the model stores and never computes with; the
-- operations on floats are arguments where they are needed. An `int` and a time in nanoseconds
-- are unbounded integers.
use smallworld_be.Prelude.{ℕ, String, Bool, true, false, ◌&&◌, Option}
use smallworld_be.Prelude.Int.{ℤ, pos}
use smallworld_be.Domain.States.{
  Gender, VerificationStatus, PreferenceLevel, TripDemandState, RideOfferState, RideBookingState,
  DriverSessionState,
}

abbrev pub Float64 : Type 0
Float64 = ℕ

-- time.Time
abbrev pub Time : Type 0
Time = ℤ

-- time.Duration
abbrev pub Duration : Type 0
Duration = ℤ

pub record Location : Type 0 where
  pub lat : Float64
  pub lng : Float64

pub record UserPreferences : Type 0 where
  pub walk_to_pickup : PreferenceLevel
  pub walk_from_dropoff : PreferenceLevel
  pub driver_pickup_detour : PreferenceLevel

unfoldable pub level_is_valid : PreferenceLevel → Bool
level_is_valid PreferenceLevel.low = true
level_is_valid PreferenceLevel.medium = true
level_is_valid PreferenceLevel.big = true
level_is_valid (PreferenceLevel.unrecognized s) = false

unfoldable pub validate : UserPreferences → Bool
unfolding level_is_valid
validate p =
    level_is_valid p.walk_to_pickup
    && level_is_valid p.walk_from_dropoff
    && level_is_valid p.driver_pickup_detour

abbrev by_level : PreferenceLevel → ℕ → ℕ → ℕ → ℤ
by_level PreferenceLevel.low low big otherwise = pos low
by_level PreferenceLevel.big low big otherwise = pos big
by_level _ low big otherwise = pos otherwise

unfoldable pub max_walk_to_pickup_meters : UserPreferences → ℤ
max_walk_to_pickup_meters p = by_level p.walk_to_pickup 200 400 300

unfoldable pub max_walk_from_dropoff_meters : UserPreferences → ℤ
max_walk_from_dropoff_meters p = by_level p.walk_from_dropoff 200 400 300

unfoldable pub max_driver_pickup_detour_meters : UserPreferences → ℤ
max_driver_pickup_detour_meters p = by_level p.driver_pickup_detour 700 1300 1000

pub record User : Type 0 where
  pub id : String
  pub auth_subject : String
  pub display_name : String
  pub average_rating : Float64
  pub preferences : UserPreferences
  pub created_at : Time

pub record IdentityVerification : Type 0 where
  pub user_id : String
  pub status : VerificationStatus
  pub provider : String
  pub provider_ref : String
  pub verified_gender : Gender
  pub verified_at : Option Time
  pub updated_at : Time

pub record Vehicle : Type 0 where
  pub id : String
  pub user_id : String
  pub make : String
  pub model : String
  pub color : String
  pub license_plate : String
  pub capacity : ℤ
  pub is_active : Bool
  pub created_at : Time

pub record DriverSession : Type 0 where
  pub id : String
  pub driver_id : String
  pub vehicle_id : String
  pub state : DriverSessionState
  pub origin : Location
  pub destination : Location
  pub current_location : Location
  pub remaining_capacity : ℤ
  pub max_driver_pickup_detour_meters : ℤ
  pub route_distance_meters : ℤ
  pub route_duration_seconds : ℤ
  pub route_polyline : String
  pub last_heartbeat_at : Time
  pub created_at : Time
  pub updated_at : Time

pub record TripDemand : Type 0 where
  pub id : String
  pub rider_id : String
  pub state : TripDemandState
  pub requested_origin : Location
  pub requested_destination : Location
  pub matched_pickup : Option Location
  pub matched_dropoff : Option Location
  pub women_drivers_only : Bool
  pub max_walk_to_pickup_meters : ℤ
  pub max_walk_from_dropoff_meters : ℤ
  pub idempotency_key : String
  pub created_at : Time
  pub updated_at : Time

pub record RideOffer : Type 0 where
  pub id : String
  pub demand_id : String
  pub driver_session_id : String
  pub state : RideOfferState
  pub detour_meters : ℤ
  pub pickup_eta_seconds : ℤ
  pub fare_cents : ℤ
  pub created_at : Time
  pub updated_at : Time

pub record RideBooking : Type 0 where
  pub id : String
  pub demand_id : String
  pub driver_session_id : String
  pub rider_id : String
  pub driver_id : String
  pub state : RideBookingState
  pub matched_pickup : Location
  pub matched_dropoff : Location
  pub rider_walk_to_pickup_m : ℤ
  pub rider_walk_from_dropoff_m : ℤ
  pub driver_pickup_detour_m : ℤ
  pub quoted_fare_cents : ℤ
  pub vehicle_license_plate : String
  pub created_at : Time
  pub updated_at : Time

pub record DriverTracking : Type 0 where
  pub booking_id : String
  pub driver_session_id : String
  pub booking_state : RideBookingState
  pub session_state : DriverSessionState
  pub current_location : Location
  pub route_polyline : String
  pub last_heartbeat_at : Time
  pub updated_at : Time

pub record Review : Type 0 where
  pub id : String
  pub booking_id : String
  pub author_id : String
  pub subject_id : String
  pub rating : ℤ
  pub comment : String
  pub created_at : Time

pub record MatchCandidate : Type 0 where
  pub session : DriverSession
  pub pickup : Location
  pub dropoff : Location
  pub phase : ℤ
  pub driver_pickup_eta_seconds : ℤ
  pub rider_walk_eta_seconds : ℤ
  pub driver_pickup_detour_meters : ℤ
  pub rider_walk_to_pickup_meters : ℤ
  pub rider_walk_from_dropoff_meters : ℤ
  pub route_overlap_score : Float64
  pub in_car_distance_meters : ℤ
  pub in_car_duration_seconds : ℤ
