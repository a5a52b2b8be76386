-- ===== src/World.antt =====
-- What the services work on: the tables of internal/infrastructure/memory/repositories.go, the
-- program's surroundings, and the calls that it has made to them.
-- internal/ports and internal/foundation name the surroundings; they are fields of `Env`, of which
-- nothing is assumed here. An answer from outside may depend on all calls made so far.
pub mod Exec
pub mod Calls
pub mod Frame
use smallworld_be.Prelude.{ℕ, String, Bool, Option, List}
use smallworld_be.Prelude.Int.{ℤ}
use smallworld_be.Prelude.Table.{Table}
use smallworld_be.Domain.Models.{
  Float64, Time, Location, User, IdentityVerification, Vehicle, DriverSession, TripDemand,
  RideOffer, RideBooking, DriverTracking, Review, MatchCandidate,
}
use smallworld_be.Domain.Errors.{Error, Result}
use smallworld_be.Services.Inputs.{StartDriverSessionInput, CreateTripDemandInput}

pub record IdempotencyRecord : Type 0 where
  pub resource_id : String
  pub payload_hash : String

pub record Store : Type 0 where
  pub users : Table User
  pub verifications : Table IdentityVerification
  pub vehicles : Table Vehicle
  pub driver_sessions : Table DriverSession
  pub trip_demands : Table TripDemand
  pub ride_offers : Table RideOffer
  pub ride_bookings : Table RideBooking
  pub reviews : Table Review
  pub idempotency : Table IdempotencyRecord

-- What `PublishToUser` is given as its payload.
pub data Payload : Type 0 where
  booking : RideBooking → Payload
  offer : RideOffer → Payload
  demand : TripDemand → Payload
  session : DriverSession → Payload
  tracking : DriverTracking → Payload

-- The calls of the push notifier, the realtime hub, the presence store and the store of pending
-- offers.
pub data Message : Type 0 where
  send_driver_offer : String → RideOffer → Message
  send_rider_matched : String → RideBooking → Message
  publish_to_user : String → String → Payload → Message
  save_session : DriverSession → Message
  delete_session : String → Message
  list_active_sessions : Message
  save_pending_offer : RideOffer → Message
  delete_pending_offer : String → Message

pub record RoutePlan : Type 0 where
  pub distance_meters : ℤ
  pub duration_seconds : ℤ
  pub polyline : String

-- A pair is the time in seconds and the distance in meters.
pub record RoutingProvider : Type 0 where
  pub route : Location → Location → Result RoutePlan
  pub walking_eta_seconds : Location → Location → Result (ℤ × ℤ)
  pub driving_eta_seconds : Location → Location → Result (ℤ × ℤ)

-- The calls made so far, the latest first, decide whether a call fails and what it returns.
pub record DriverPresenceStore : Type 0 where
  pub failure : List Message → Message → Option Error
  pub active_sessions : List Message → List DriverSession

pub record EphemeralOfferStore : Type 0 where
  pub failure : List Message → Message → Option Error

-- Whether a statement of a database transaction fails, by its number in the transaction.
pub record Database : Type 0 where
  pub failure : List Message → ℕ → Option Error

-- The operations of `float64` and of Go's `math` that the program calls.
pub record Floats : Type 0 where
  pub of_int : ℤ → Float64
  pub to_int : Float64 → ℤ
  pub add : Float64 → Float64 → Float64
  pub subtract : Float64 → Float64 → Float64
  pub multiply : Float64 → Float64 → Float64
  pub divide : Float64 → Float64 → Float64
  pub less : Float64 → Float64 → Bool
  pub pi : Float64
  pub sine : Float64 → Float64
  pub cosine : Float64 → Float64
  pub arcsine : Float64 → Float64
  pub square_root : Float64 → Float64

pub record EngineConfig : Type 0 where
  pub max_driver_session_staleness_seconds : ℤ
  pub eta_safety_buffer_seconds : ℤ
  pub pickup_search_step_meters : ℤ

-- `clock n` is the n-th reading of `time.Now().UTC()`, and `new_id n` the n-th call of
-- `IDGenerator.New`.
pub record Env : Type 0 where
  pub clock : ℕ → Time
  pub new_id : ℕ → String → String
  pub hash_string : String → String
  pub marshal_start : StartDriverSessionInput → String
  pub marshal_create : CreateTripDemandInput → String
  pub routing : RoutingProvider
  pub floats : Floats
  pub engine_config : EngineConfig
  pub quote : MatchCandidate → Result ℤ
  pub presence : Option DriverPresenceStore
  pub ephemeral : Option EphemeralOfferStore
  pub acceptor : Option Database
  pub has_realtime : Bool

pub record World : Type 0 where
  pub store : Store
  pub open store use *
  pub env : Env
  pub open env use *
  pub ticks : ℕ
  pub seq : ℕ
  pub outbox : List Message
