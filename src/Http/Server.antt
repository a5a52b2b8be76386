-- ===== src/Http/Server.antt =====
-- The server of internal/interfaces/http/router.go: what it is built with, how a body is decoded,
-- and the ways in which a handler goes on or ends.
-- encoding/json and the token verifier are fields of `Server`, of which nothing is assumed here.
use smallworld_be.Prelude.{ℕ, String, Bool, Option, ◌⊎◌, inl, inr}
use smallworld_be.Prelude.Int.{ℤ}
use smallworld_be.Domain.States.{Gender, DriverSessionState, RideBookingState}
use smallworld_be.Domain.Models.{Location}
use smallworld_be.Domain.Errors.{Result, ok, err}
use smallworld_be.World.{World}
use smallworld_be.Services.Inputs.{
  UpsertProfileInput, CreateVehicleInput, DevBootstrapVehicleInput, StartDriverSessionInput,
  CreateTripDemandInput,
}
use smallworld_be.Http.Messages.{
  AuthIdentity, Request, Response, write_request_error, write_service_error,
}

pub record BootstrapBody : Type 0 where
  pub display_name : String
  pub verified_gender : Gender
  pub vehicle : Option DevBootstrapVehicleInput

pub record ReviewBody : Type 0 where
  pub rating : ℤ
  pub comment : String

-- What `json.Decoder.Decode` reads at the start of a text: a value and what comes after it, or
-- an error's text. A user id in a body is decoded too, and the handlers overwrite it.
pub data Decoded (A : Type 0) : Type 0 where
  value : A → String → Decoded A
  failed : String → Decoded A

-- A second `Decode` of any value: `io.EOF`, a value, or another error.
pub data Trailing : Type 0 where
  end_of_file more : Trailing
  broken : String → Trailing

pub record Json : Type 0 where
  pub bootstrap : String → Decoded BootstrapBody
  pub profile : String → Decoded UpsertProfileInput
  pub vehicle : String → Decoded CreateVehicleInput
  pub session : String → Decoded StartDriverSessionInput
  pub location : String → Decoded Location
  pub session_state : String → Decoded DriverSessionState
  pub demand : String → Decoded CreateTripDemandInput
  pub booking_state : String → Decoded RideBookingState
  pub review : String → Decoded ReviewBody
  pub trailing : String → Trailing

-- `redirect` is how net/http sends a client to the cleaned form of a path.
pub record Server : Type 0 where
  pub enable_dev_bootstrap : Bool
  pub has_web_socket_hub : Bool
  pub verify_token : String → Result AuthIdentity
  pub json : Json
  pub redirect : Request → Response

abbrev bad_body : String → Response
bad_body cause = write_request_error 400 "invalid request body" cause

module _ {A : Type 0} where
  abbrev check_trailing : A → Trailing → Response ⊎ A
  check_trailing a end_of_file = inr a
  check_trailing a more = inl (bad_body "multiple JSON values in request body")
  check_trailing a (broken cause) = inl (bad_body cause)

  abbrev finish_body : Server → Decoded A → Response ⊎ A
  finish_body s (failed cause) = inl (bad_body cause)
  finish_body s (value a rest) = check_trailing a (s.json.trailing rest)

  unfoldable pub decode_json_body : Server → (String → Decoded A) → Request → Response ⊎ A
  unfolding write_request_error
  decode_json_body s decode r = finish_body s (decode r.body)

  -- if !decodeJSONBody(w, r, &body) { return }
  unfoldable pub with_body :
      Response ⊎ A → (A → World → Response × World) → World → Response × World
  with_body (inl refused) k w = (refused, w)
  with_body (inr a) k w = k a w

  -- if err != nil { writeServiceError(w, err, default); return }
  unfoldable pub or_refuse :
      ℕ → Result A → (A → World → Response × World) → World → Response × World
  unfolding write_service_error
  or_refuse default (ok a) k w = k a w
  or_refuse default (err e) k w = (write_service_error e default, w)
