-- ===== src/Routing/Google.antt =====
-- internal/infrastructure/routing/google_routes.go: routes from the Google Routes API. What leaves the
-- program is the request; net/http, encoding/json and time.ParseDuration are fields of `Api`. A
-- number of seconds is below 2 ^ 22, so that the float which Seconds() gives is cut to whole
-- seconds without rounding up.
use Prim.Native.String.{◌++◌}
use smallworld_be.Prelude.{
  String, ◌==◌, Bool, true, false, ◌||◌, Option, none, some, List, [], ◌∷◌, if◌then◌else◌,
}
use smallworld_be.Prelude.Int.{ℤ, pos, quot, ltb_ℤ, leb_ℤ}
use smallworld_be.Domain.Models.{Location, Duration}
use smallworld_be.Domain.Errors.{Error, external, wrap, Result, ok, err}
use smallworld_be.World.{RoutePlan, RoutingProvider}
use smallworld_be.Text.{trim_space}

pub record GoogleRoutesConfig : Type 0 where
  pub api_key : String
  pub base_url : String
  pub language_code : String

-- The HTTP client is the one of `Api`.
pub record GoogleRoutesProvider : Type 0 where
  pub api_key : String
  pub base_url : String
  pub language_code : String

abbrev or_default : String → String → String
or_default s fallback = if s == "" then fallback else s

unfoldable pub new_google_routes_provider : GoogleRoutesConfig → Result GoogleRoutesProvider
unfolding trim_space
new_google_routes_provider cfg =
    if trim_space cfg.api_key == ""
    then err (external "google routes api key is required")
    else ok (record {
      api_key = cfg.api_key;
      base_url =
          or_default cfg.base_url "https://routes.googleapis.com/directions/v2:computeRoutes";
      language_code = or_default cfg.language_code "en-US";
    })

pub data GoogleTravelMode : Type 0 where
  drive walk : GoogleTravelMode

-- string(travelMode)
unfoldable pub mode_text : GoogleTravelMode → String
mode_text drive = "DRIVE"
mode_text walk = "WALK"

pub record GoogleRouteModifiers : Type 0 where
  pub avoid_tolls : Bool
  pub avoid_highways : Bool
  pub avoid_ferries : Bool

-- The location of `GoogleWaypoint` is a pair of a latitude and a longitude. A text that is empty is
-- left out of the JSON.
pub record GoogleComputeRoutesRequest : Type 0 where
  pub origin : Location
  pub destination : Location
  pub travel_mode : String
  pub routing_preference : String
  pub compute_alternative_routes : Bool
  pub route_modifiers : Option GoogleRouteModifiers
  pub language_code : String
  pub units : String
  pub polyline_quality : String

-- One of the routes of `GoogleComputeRoutesResponse`.
pub record GoogleRoute : Type 0 where
  pub distance_meters : ℤ
  pub duration : String
  pub encoded_polyline : String

pub record GoogleRouteSummary : Type 0 where
  pub distance_meters : ℤ
  pub duration_seconds : ℤ
  pub polyline : String

-- A POST with its three headers, and what comes back: the status, and the body or the error of
-- reading it.
pub record HttpRequest : Type 0 where
  pub url : String
  pub content_type : String
  pub api_key : String
  pub field_mask : String
  pub body : String

pub record HttpResponse : Type 0 where
  pub status_code : ℤ
  pub status : String
  pub body : Result String

pub record Api : Type 0 where
  pub marshal : GoogleComputeRoutesRequest → Result String
  pub new_request : String → Option Error
  pub send : HttpRequest → Result HttpResponse
  pub unmarshal : String → Result (List GoogleRoute)
  pub parse_duration : String → Result Duration

infixl 10 ◌>>=◌ ◌>>◌
abbrev ◌>>=◌ : {A B : Type 0} → Result A → (A → Result B) → Result B
ok a >>= f = f a
err e >>= f = err e

abbrev ◌>>◌ : {B : Type 0} → Result (Unit {0}) → Result B → Result B
m >> n = m >>= λ _. n

-- if err != nil { return …, fmt.Errorf(what + ": %w", err) }
abbrev on_error : {A : Type 0} → String → Result A → Result A
on_error what (ok a) = ok a
on_error what (err e) = err (wrap what e)

abbrev made : String → Option Error → Result (Unit {0})
made what none = ok tt
made what (some e) = err (wrap what e)

abbrev for_driving : {A : Type 0} → GoogleTravelMode → A → A → A
for_driving drive a b = a
for_driving walk a b = b

unfoldable pub request_body :
    GoogleRoutesProvider
    → Location
    → Location
    → GoogleTravelMode
    → Bool
    → GoogleComputeRoutesRequest
unfolding mode_text
request_body p origin destination mode include_polyline = record {
  origin = origin;
  destination = destination;
  travel_mode = mode_text mode;
  routing_preference = for_driving mode "TRAFFIC_AWARE" "";
  compute_alternative_routes = false;
  route_modifiers =
      for_driving mode
        (some (record { avoid_tolls = false; avoid_highways = false; avoid_ferries = false })) none;
  language_code = p.language_code;
  units = "METRIC";
  polyline_quality = if include_polyline then "OVERVIEW" else "";
}

-- if resp.StatusCode < 200 || resp.StatusCode >= 300 { … }
abbrev check_status : HttpResponse → String → Result (Unit {0})
check_status r body =
    if ltb_ℤ r.status_code (pos 200) || leb_ℤ (pos 300) r.status_code
    then err (external ("google routes api returned " ++ (r.status ++ (": " ++ trim_space body))))
    else ok tt

abbrev first_route : List GoogleRoute → Result GoogleRoute
first_route [] = err (external "google routes api returned no routes")
first_route (r ∷ rs) = ok r

unfoldable pub compute_route :
    Api
    → GoogleRoutesProvider
    → Location
    → Location
    → GoogleTravelMode
    → (include_polyline : Bool) → (field_mask : String) → Result GoogleRouteSummary
unfolding request_body quot trim_space
compute_route api p origin destination mode include_polyline field_mask = do
  payload ←
      on_error "marshal google routes request"
        (api.marshal (request_body p origin destination mode include_polyline))
  made "build google routes request" (api.new_request p.base_url)
  response ← on_error "call google routes api" (
      api.send (record {
        url = p.base_url;
        content_type = "application/json";
        api_key = p.api_key;
        field_mask = field_mask;
        body = payload;
      }))
  body ← on_error "read google routes response" response.body
  check_status response body
  routes ← on_error "decode google routes response" (api.unmarshal body)
  route ← first_route routes
  duration ← on_error "parse google routes duration" (api.parse_duration route.duration)
  ok (record {
    distance_meters = route.distance_meters;
    duration_seconds = quot duration 1_000_000_000;
    polyline = route.encoded_polyline;
  })

unfoldable pub google_route : Api → GoogleRoutesProvider → Location → Location → Result RoutePlan
google_route api p origin destination = do
  r ←
      compute_route api p origin destination drive true
        "routes.distanceMeters,routes.duration,routes.polyline.encodedPolyline"
  ok (record {
    distance_meters = r.distance_meters;
    duration_seconds = r.duration_seconds;
    polyline = r.polyline;
  })

unfoldable pub google_walking : Api → GoogleRoutesProvider → Location → Location → Result (ℤ × ℤ)
google_walking api p origin destination = do
  r ← compute_route api p origin destination walk false "routes.distanceMeters,routes.duration"
  ok (r.duration_seconds, r.distance_meters)

unfoldable pub google_driving : Api → GoogleRoutesProvider → Location → Location → Result (ℤ × ℤ)
google_driving api p origin destination = do
  r ← compute_route api p origin destination drive false "routes.distanceMeters,routes.duration"
  ok (r.duration_seconds, r.distance_meters)

unfoldable pub google_provider : Api → GoogleRoutesProvider → RoutingProvider
unfolding google_route google_walking google_driving
google_provider api p = record {
  route = google_route api p;
  walking_eta_seconds = google_walking api p;
  driving_eta_seconds = google_driving api p;
}
