-- ===== src/Http/Errors.antt =====
-- What a client is told of an error: the end of internal/interfaces/http/router.go.
use Prim.Native.String.{◌++◌ as str_append}
use smallworld_be.Prelude.{ℕ, String, if◌then◌else◌, leb}
use smallworld_be.Domain.Errors.{
  Error, unauthorized, user_not_found, driver_session_not_found, verification_required,
  vehicle_required, demand_not_found, no_candidate_found, offer_not_found, booking_not_found,
  driver_tracking_unavailable, invalid_user_preferences, capacity_exceeded, idempotency_conflict,
  women_only_requires_verified_female_rider, vehicle_not_found, idempotency_key_not_found,
  transition_not_allowed, external,
}

-- err.Error()
unfoldable pub error_text : Error → String
error_text unauthorized = "unauthorized"
error_text user_not_found = "user not found"
error_text driver_session_not_found = "driver session not found"
error_text verification_required = "verification required"
error_text vehicle_required = "active vehicle required"
error_text demand_not_found = "trip demand not found"
error_text no_candidate_found = "no matching driver candidate found"
error_text offer_not_found = "ride offer not found"
error_text booking_not_found = "ride booking not found"
error_text driver_tracking_unavailable = "driver tracking unavailable"
error_text invalid_user_preferences = "invalid user preferences"
error_text capacity_exceeded = "capacity exceeded"
error_text idempotency_conflict = "idempotency conflict"
error_text women_only_requires_verified_female_rider =
    "women-only matching is unavailable for this account"
error_text vehicle_not_found = "vehicle not found"
error_text idempotency_key_not_found = "idempotency key not found"
error_text (transition_not_allowed entity from to) = str_append entity (
    str_append " transition "
      (str_append from (str_append " -> " (str_append to " is not allowed"))))
error_text (external text) = text

pub record ResolvedServiceError : Type 0 where
  pub status : ℕ
  pub message : String

unfoldable message_for_known_service_error : Error → String
unfolding error_text
message_for_known_service_error user_not_found = "user not found"
message_for_known_service_error driver_session_not_found = "driver session not found"
message_for_known_service_error demand_not_found = "trip demand not found"
message_for_known_service_error offer_not_found = "ride offer not found"
message_for_known_service_error booking_not_found = "ride booking not found"
message_for_known_service_error driver_tracking_unavailable = "driver tracking unavailable"
message_for_known_service_error e = error_text e

abbrev not_found : Error → ResolvedServiceError
unfolding message_for_known_service_error
not_found e = record { status = 404; message = message_for_known_service_error e }

abbrev told : ℕ → String → ResolvedServiceError
told status message = record { status = status; message = message }

unfoldable pub resolve_service_error : Error → ℕ → ResolvedServiceError
unfolding error_text message_for_known_service_error
resolve_service_error unauthorized default = told 401 "unauthorized"
resolve_service_error user_not_found default = not_found user_not_found
resolve_service_error driver_session_not_found default = not_found driver_session_not_found
resolve_service_error demand_not_found default = not_found demand_not_found
resolve_service_error offer_not_found default = not_found offer_not_found
resolve_service_error booking_not_found default = not_found booking_not_found
resolve_service_error driver_tracking_unavailable default = not_found driver_tracking_unavailable
resolve_service_error verification_required default = told default "verification required"
resolve_service_error vehicle_required default = told default "active vehicle required"
resolve_service_error no_candidate_found default = told default "no matching driver candidate found"
resolve_service_error invalid_user_preferences default = told 400 "invalid user preferences"
resolve_service_error capacity_exceeded default = told default "capacity exceeded"
resolve_service_error idempotency_conflict default = told default "idempotency conflict"
resolve_service_error women_only_requires_verified_female_rider default =
    told default "women-only matching is unavailable for this account"
resolve_service_error e default =
    if leb 500 default then told default "internal server error" else told default (error_text e)
