-- ===== src/Domain/States.antt =====
-- internal/domain/states.go, and the enumerations of internal/domain/models.go.
-- A Go enumeration is a string with named constants. Where a client can send any string
-- (a preference level, a gender, the next state of a booking or of a session) the type has the
-- constructor `unrecognized` for all others; the remaining states are only ever set to constants.
use smallworld_be.Prelude.{String}

pub data Gender : Type 0 where
  unknown female male other : Gender
  unrecognized : String → Gender

pub data VerificationStatus : Type 0 where
  pending verified rejected : VerificationStatus

pub data PreferenceLevel : Type 0 where
  low medium big : PreferenceLevel
  unrecognized : String → PreferenceLevel

pub data TripDemandState : Type 0 where
  draft searching offered matched canceled aborted : TripDemandState

pub data RideOfferState : Type 0 where
  pending accepted declined expired withdrawn : RideOfferState

pub data RideBookingState : Type 0 where
  assigned rider_walking_to_pickup driver_en_route_to_pickup pickup_ready onboard : RideBookingState
  completed canceled no_show : RideBookingState
  unrecognized : String → RideBookingState

pub data DriverSessionState : Type 0 where
  active full paused ended : DriverSessionState
  unrecognized : String → DriverSessionState

-- string(state), as it stands in errors and in the names of events.
unfoldable pub demand_text : TripDemandState → String
demand_text TripDemandState.draft = "draft"
demand_text TripDemandState.searching = "searching"
demand_text TripDemandState.offered = "offered"
demand_text TripDemandState.matched = "matched"
demand_text TripDemandState.canceled = "canceled"
demand_text TripDemandState.aborted = "aborted"

unfoldable pub offer_text : RideOfferState → String
offer_text RideOfferState.pending = "pending"
offer_text RideOfferState.accepted = "accepted"
offer_text RideOfferState.declined = "declined"
offer_text RideOfferState.expired = "expired"
offer_text RideOfferState.withdrawn = "withdrawn"

unfoldable pub booking_text : RideBookingState → String
booking_text RideBookingState.assigned = "assigned"
booking_text RideBookingState.rider_walking_to_pickup = "rider_walking_to_pickup"
booking_text RideBookingState.driver_en_route_to_pickup = "driver_en_route_to_pickup"
booking_text RideBookingState.pickup_ready = "pickup_ready"
booking_text RideBookingState.onboard = "onboard"
booking_text RideBookingState.completed = "completed"
booking_text RideBookingState.canceled = "canceled"
booking_text RideBookingState.no_show = "no_show"
booking_text (RideBookingState.unrecognized s) = s

unfoldable pub session_text : DriverSessionState → String
session_text DriverSessionState.active = "active"
session_text DriverSessionState.full = "full"
session_text DriverSessionState.paused = "paused"
session_text DriverSessionState.ended = "ended"
session_text (DriverSessionState.unrecognized s) = s
