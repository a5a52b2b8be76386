-- ===== src/Services/Inputs.antt =====
-- The inputs of internal/application/service. The HTTP layer fills them from the request's body.
use smallworld_be.Prelude.{String, Bool, Option}
use smallworld_be.Prelude.Int.{ℤ}
use smallworld_be.Domain.States.{Gender, DriverSessionState}
use smallworld_be.Domain.Models.{Location, UserPreferences, User, IdentityVerification, Vehicle}

pub record StartDriverSessionInput : Type 0 where
  pub user_id : String
  pub vehicle_id : String
  pub origin : Location
  pub destination : Location
  pub current_location : Location
  pub max_driver_pickup_detour_meters : ℤ
  pub idempotency_key : String

pub record HeartbeatDriverSessionInput : Type 0 where
  pub session_id : String
  pub current_location : Location

pub record TransitionDriverSessionStateInput : Type 0 where
  pub session_id : String
  pub state : DriverSessionState

pub record CreateTripDemandInput : Type 0 where
  pub rider_id : String
  pub requested_origin : Location
  pub requested_destination : Location
  pub women_drivers_only : Bool
  pub max_walk_to_pickup_meters : ℤ
  pub max_walk_from_dropoff_meters : ℤ
  pub idempotency_key : String

pub record UpsertProfileInput : Type 0 where
  pub display_name : String
  pub preferences : UserPreferences

pub record CreateVehicleInput : Type 0 where
  pub user_id : String
  pub make : String
  pub model : String
  pub color : String
  pub license_plate : String
  pub capacity : ℤ

pub record DevBootstrapVehicleInput : Type 0 where
  pub make : String
  pub model : String
  pub color : String
  pub license_plate : String
  pub capacity : ℤ

pub record DevBootstrapInput : Type 0 where
  pub auth_subject : String
  pub display_name : String
  pub verified_gender : Gender
  pub vehicle : Option DevBootstrapVehicleInput

pub record DevBootstrapResult : Type 0 where
  pub user : User
  pub verification : IdentityVerification
  pub vehicle : Option Vehicle
