-- ===== src/Tests/Web.antt =====
-- Requests to the server.
use mathlib.Core.List.{Perm}
use smallworld_be.Prelude.{
  eqb, String, ◌==◌, false, ◌≡◌, refl, ◌⊎◌, true, some, if◌then◌else◌, arith, eq_iff, ◌∷◌, [],
}
use smallworld_be.Prelude.Int.{pos}
use smallworld_be.Prelude.Table.{get, put, values}
use smallworld_be.Domain.States.{PreferenceLevel}
use smallworld_be.Domain.Models.{User, IdentityVerification}
use smallworld_be.Domain.Errors.{ok, err, unauthorized}
use smallworld_be.Domain.Policies.{rider_eligible, require_transition, offer_can_transition}
use smallworld_be.World.{World, Payload}
use smallworld_be.Realtime.{Client, Hub, register, clients_of, publish_to_user}
use smallworld_be.Realtime.Clients.{Once, opened, joined}
use smallworld_be.Realtime.Delivery.{publish_to_user-sent}
use smallworld_be.Services.Accounts.{find_by_auth_subject, find_verification_by_user}
use smallworld_be.Services.Demands.{cancel}
use smallworld_be.Services.Offers.{accept}
use smallworld_be.Http.Messages.{
  Request, AuthBootstrapResponse, Body, OnboardingState, answer, write_json,
}
use smallworld_be.Http.Server.{Server, Json, failed, end_of_file, or_refuse}
use smallworld_be.Http.Auth.{RequestIdentity}
use smallworld_be.Http.Reads.{auth_me}
use smallworld_be.Http.Actions.{
  offer_actions, trip_demand_actions, driver_session_actions, session_heartbeat,
}
use smallworld_be.Http.Serve.{serve}
use smallworld_be.Http.Answers.{auth_me-ready}
use smallworld_be.Http.Paths.{id-paths}
use smallworld_be.Http.Effects.Requests.{Known, ActedBy, serve-ActedBy, serve-refused}
use smallworld_be.Tests.Fixtures.{world, store, verification, offer}

abbrev json : Json
json = record {
  bootstrap = λ t. failed "bad";
  profile = λ t. failed "bad";
  vehicle = λ t. failed "bad";
  session = λ t. failed "bad";
  location = λ t. failed "bad";
  session_state = λ t. failed "bad";
  demand = λ t. failed "bad";
  booking_state = λ t. failed "bad";
  review = λ t. failed "bad";
  trailing = λ t. end_of_file;
}

abbrev server : Server
server = record {
  enable_dev_bootstrap = false;
  has_web_socket_hub = true;
  verify_token = λ t.
      if t == "secret" then ok (record { subject = "sub"; provider = "p" }) else err unauthorized;
  json = json;
  redirect = λ r. write_json 307 (Body.plain "");
}

abbrev driver : User
driver = record {
  id = "driver";
  auth_subject = "sub";
  display_name = "D";
  average_rating = 0;
  preferences = record {
    walk_to_pickup = PreferenceLevel.medium;
    walk_from_dropoff = PreferenceLevel.medium;
    driver_pickup_detour = PreferenceLevel.medium;
  };
  created_at = pos 0;
}

abbrev web : World
web = record world { store = record store { users = ("driver", driver) ∷ [] } }

abbrev caller : RequestIdentity
caller = record { subject = "sub"; provider = "p"; user_id = "driver" }

abbrev accepting : String → Request
accepting authorization = record {
  method = "POST";
  path = "/v1/ride-offers/o1/accept";
  authorization = authorization;
  body = "";
}

abbrev reading : Request
reading = record {
  method = "GET";
  path = "/v1/users/driver/reviews";
  authorization = "Bearer secret";
  body = "";
}

served : (serve server (accepting "Bearer secret") web).response.status ≡ 200
unfolding serve accept get values offer_actions require_transition offer_can_transition
served = refl

serve-ActedBy_example :
    ((serve server (accepting "Bearer secret") web).world ≡ web)
    ⊎ ActedBy server
        (accepting "Bearer secret")
        web
        (serve server (accepting "Bearer secret") web).world
serve-ActedBy_example = serve-ActedBy server (accepting "Bearer secret") web

serve-refused_example :
    (((serve server (accepting "Basic secret") web).response.status ≡ 401)
      × ((serve server (accepting "Basic secret") web).world ≡ web))
    ⊎ ((who : RequestIdentity) × Known server (accepting "Basic secret") web who)
serve-refused_example =
    serve-refused server (accepting "Basic secret") web
      (λ e. ground (arith, eq_iff "/v1/ride-offers/o1/accept" "/healthz"))

id-paths_example :
    (offer_actions server (some caller) (accepting "Bearer secret") web
      ≡ answer 200 Body.booking 400 (accept "driver" "o1" web))
    × (trip_demand_actions server
          (some caller)
          (record (accepting "Bearer secret") { path = "/v1/trip-demands/o1/cancel" })
          web
        ≡ answer 200 Body.demand 400 (cancel "driver" "o1" web))
    × (driver_session_actions server
          (some caller)
          (record (accepting "Bearer secret") { path = "/v1/driver-sessions/o1/heartbeat" })
          web
        ≡ session_heartbeat server "driver" "o1" (accepting "Bearer secret") web)
id-paths_example =
    id-paths server caller (accepting "Bearer secret") web "o1"
      (λ e. ground (arith, eq_iff "driver" ""))

abbrev me : AuthBootstrapResponse
me = record {
  auth = record { subject = "sub"; provider = "p" };
  user = some driver;
  verification = some (verification "driver");
  onboarding_state = OnboardingState.ready;
}

auth_me-ready_example :
    (u : User) × (v : IdentityVerification) × ((find_by_auth_subject "sub" web).0 ≡ ok u)
    × (get u.id web.verifications ≡ some v)
    × (rider_eligible v ≡ true)
unfolding auth_me or_refuse get values find_by_auth_subject find_verification_by_user
auth_me-ready_example = auth_me-ready server caller reading web me refl refl

-- The first connection of the driver is broken, the second works.
abbrev phone : Client
phone = record { id = 1; user_id = "driver" }

abbrev tablet : Client
tablet = record { id = 2; user_id = "driver" }

abbrev hub : Hub
hub = register tablet (register phone [])

publish_to_user-sent_example :
    Once (tablet ∷ phone ∷ [])
    × Perm (publish_to_user (λ n. eqb n 1) "driver" "ping" (Payload.offer offer) hub).sent (
        (2, record { type = "ping"; payload = Payload.offer offer })
        ∷ (1, record { type = "ping"; payload = Payload.offer offer })
        ∷ [])
    × (clients_of "driver"
          (publish_to_user (λ n. eqb n 1) "driver" "ping" (Payload.offer offer) hub).hub
        ≡ tablet ∷ [])
    × (clients_of "rider"
          (publish_to_user (λ n. eqb n 1) "driver" "ping" (Payload.offer offer) hub).hub
        ≡ clients_of "rider" hub)
unfolding clients_of register get put
publish_to_user-sent_example =
    publish_to_user-sent (λ n. eqb n 1) "driver" "rider" "ping" (Payload.offer offer) hub
      (joined (joined opened phone) tablet) (λ e. ground (arith, eq_iff "driver" "rider"))
