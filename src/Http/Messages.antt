-- ===== src/Http/Messages.antt =====
-- Requests and responses of internal/interfaces/http/router.go and logging.go, and the ways in
-- which a handler ends. A JSON answer is the value that is encoded.
use smallworld_be.Prelude.{ℕ, String, Option, List}
use smallworld_be.Domain.Models.{
  User, IdentityVerification, Vehicle, DriverSession, TripDemand, RideOffer, RideBooking,
  DriverTracking, Review,
}
use smallworld_be.Domain.Errors.{Error, Result, ok, err}
use smallworld_be.World.{World}
use smallworld_be.Services.Inputs.{DevBootstrapResult}
use smallworld_be.Http.Errors.{error_text, resolve_service_error}

-- `path` is `r.URL.Path`, `authorization` the header of that name, "" if there is none.
pub record Request : Type 0 where
  pub method : String
  pub path : String
  pub authorization : String
  pub body : String

pub record AuthIdentity : Type 0 where
  pub subject : String
  pub provider : String

pub data OnboardingState : Type 0 where
  needs_profile needs_verification verification_pending ready : OnboardingState

pub record AuthBootstrapResponse : Type 0 where
  pub auth : AuthIdentity
  pub user : Option User
  pub verification : Option IdentityVerification
  pub onboarding_state : OnboardingState

-- The values that `writeJSON` is given; `message` is {"error": …}. `upgraded` stands for a request
-- that the WebSocket hub has taken over for a user, `plain` for an answer of net/http.
pub data Body : Type 0 where
  health : Body
  message : String → Body
  auth_me : AuthBootstrapResponse → Body
  bootstrapped : DevBootstrapResult → Body
  user : User → Body
  vehicle : Vehicle → Body
  vehicles : List Vehicle → Body
  session : DriverSession → Body
  demand : TripDemand → Body
  demand_and_offer : TripDemand → Option RideOffer → Body
  offer : RideOffer → Body
  offers : List RideOffer → Body
  booking : RideBooking → Body
  bookings : List RideBooking → Body
  tracking : DriverTracking → Body
  review : Review → Body
  reviews : List Review → Body
  upgraded : String → Body
  plain : String → Body

-- `error_message` and `internal_error` are what the handler has told the logging writer.
pub record Response : Type 0 where
  pub status : ℕ
  pub body : Body
  pub error_message : String
  pub internal_error : String

unfoldable pub write_json : ℕ → Body → Response
write_json status body = record {
  status = status;
  body = body;
  error_message = "";
  internal_error = "";
}

-- recordResponseError(w, …, err); writeJSON(w, status, {"error": message})
unfoldable pub write_request_error : ℕ → String → String → Response
write_request_error status text cause = record {
  status = status;
  body = message text;
  error_message = text;
  internal_error = cause;
}

unfoldable pub write_error_message : ℕ → String → Response
unfolding write_request_error
write_error_message status text = write_request_error status text ""

unfoldable pub write_service_error : Error → ℕ → Response
unfolding write_request_error
write_service_error e default =
    let resolved = resolve_service_error e default in
    write_request_error resolved.status resolved.message (error_text e)

-- http.NotFound
unfoldable pub not_found : Response
unfolding write_json
not_found = write_json 404 (plain "404 page not found\n")

-- if err != nil { writeServiceError(w, err, default); return }; writeJSON(w, status, value)
unfoldable pub answer {ℓ} : {A : Type ℓ} → ℕ → (A → Body) → ℕ → Result A × World → Response × World
unfolding write_json write_service_error
answer status body default (ok a, w) = (write_json status (body a), w)
answer status body default (err e, w) = (write_service_error e default, w)
