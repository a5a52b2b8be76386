-- ===== src/Http/Actions.antt =====
-- The handlers of POST requests of internal/interfaces/http/router.go.
use smallworld_be.Prelude.{String, not, if◌then◌else◌}
use smallworld_be.World.{World}
use smallworld_be.Services.Inputs.{DevBootstrapInput}
use smallworld_be.Services.Accounts.{bootstrap, upsert_authenticated, create_vehicle}
use smallworld_be.Services.Sessions.{start}
use smallworld_be.Services.Sessions.Updates.{heartbeat_owned, transition_state_owned}
use smallworld_be.Services.Demands.{create, cancel}
use smallworld_be.Services.Offers.{accept, decline}
use smallworld_be.Services.Bookings.{transition_for_actor}
use smallworld_be.Services.Reviews.{create_for_actor}
use smallworld_be.Text.{trim_prefix, has_suffix, trim_suffix}
use smallworld_be.Http.Messages.{Request, Response, Body, not_found, answer}
use smallworld_be.Http.Server.{Server, BootstrapBody, decode_json_body, with_body, or_refuse}
use smallworld_be.Http.Auth.{RequestIdentity, require_identity, current_user_id}
use smallworld_be.Http.Reads.{Handler}

abbrev pub bootstrap_input : RequestIdentity → BootstrapBody → DevBootstrapInput
bootstrap_input who body = record {
  auth_subject = who.subject;
  display_name = body.display_name;
  verified_gender = body.verified_gender;
  vehicle = body.vehicle;
}

unfoldable pub dev_bootstrap : Handler
unfolding require_identity decode_json_body bootstrap
dev_bootstrap s who r = or_refuse 401 (require_identity who) λ who.
    with_body (decode_json_body s s.json.bootstrap r)
      λ body w. answer 200 Body.bootstrapped 400 (bootstrap (bootstrap_input who body) w)

unfoldable pub profile_upsert : Handler
unfolding require_identity decode_json_body upsert_authenticated
profile_upsert s who r = or_refuse 401 (require_identity who) λ who.
    with_body (decode_json_body s s.json.profile r)
      λ input w. answer 200 Body.user 500 (upsert_authenticated who.subject input w)

unfoldable pub vehicle_create : Handler
unfolding current_user_id decode_json_body create_vehicle
vehicle_create s who r = or_refuse 400 (current_user_id who) λ user_id.
    with_body (decode_json_body s s.json.vehicle r)
      λ input w. answer 201 Body.vehicle 400 (create_vehicle (record input { user_id = user_id }) w)

unfoldable pub driver_session_create : Handler
unfolding current_user_id decode_json_body start
driver_session_create s who r = or_refuse 400 (current_user_id who) λ user_id.
    with_body (decode_json_body s s.json.session r)
      λ input w. answer 201 Body.session 400 (start (record input { user_id = user_id }) w)

-- The two cases of the `switch` in `handleDriverSessionActions`.
unfoldable pub session_heartbeat : Server → String → String → Request → World → Response × World
unfolding decode_json_body heartbeat_owned
session_heartbeat s user_id session_id r w =
    with_body (decode_json_body s s.json.location r)
      (λ location w. answer 200 Body.session 400 (
        heartbeat_owned user_id (record { session_id = session_id; current_location = location })
          w))
      w

unfoldable pub session_state : Server → String → String → Request → World → Response × World
unfolding decode_json_body transition_state_owned
session_state s user_id session_id r w =
    with_body (decode_json_body s s.json.session_state r)
      (λ state w.
        answer 200 Body.session 400
          (transition_state_owned user_id (record { session_id = session_id; state = state }) w))
      w

unfoldable pub driver_session_actions : Handler
unfolding current_user_id trim_prefix has_suffix trim_suffix not_found session_heartbeat
    session_state
driver_session_actions s who r = or_refuse 400 (current_user_id who) λ user_id w.
    let path = trim_prefix r.path "/v1/driver-sessions/" in
    if has_suffix path "/heartbeat"
    then session_heartbeat s user_id (trim_suffix path "/heartbeat") r w
    else if has_suffix path "/state"
    then session_state s user_id (trim_suffix path "/state") r w
    else (not_found, w)

-- The test for the error of a demand without a candidate is left out, since `Create` never gives it
-- (Services/Demands/Opening).
unfoldable pub trip_demand_create : Handler
unfolding current_user_id decode_json_body create
trip_demand_create s who r = or_refuse 400 (current_user_id who) λ user_id.
    with_body (decode_json_body s s.json.demand r) λ input w.
      answer 201 (λ made. Body.demand_and_offer made.0 made.1) 400
        (create (record input { rider_id = user_id }) w)

unfoldable pub trip_demand_actions : Handler
unfolding trim_prefix has_suffix trim_suffix not_found current_user_id cancel
trip_demand_actions s who r w =
    let demand_id = trim_suffix (trim_prefix r.path "/v1/trip-demands/") "/cancel" in
    let canceled =
      or_refuse 400 (current_user_id who)
        (λ user_id w. answer 200 Body.demand 400 (cancel user_id demand_id w)) w in
    if not (has_suffix r.path "/cancel") then (not_found, w) else canceled

unfoldable pub offer_actions : Handler
unfolding trim_prefix has_suffix trim_suffix not_found current_user_id accept decline
offer_actions s who r w =
    let path = trim_prefix r.path "/v1/ride-offers/" in
    let accepted =
      or_refuse 400 (current_user_id who)
        (λ user_id w. answer 200 Body.booking 400 (accept user_id (trim_suffix path "/accept") w))
        w in
    let declined =
      or_refuse 400 (current_user_id who)
        (λ user_id w. answer 200 Body.offer 400 (decline user_id (trim_suffix path "/decline") w))
        w in
    if has_suffix path "/accept"
    then accepted
    else if has_suffix path "/decline"
    then declined
    else (not_found, w)

unfoldable pub booking_transition : Handler
unfolding current_user_id trim_prefix has_suffix trim_suffix not_found decode_json_body
    transition_for_actor
booking_transition s who r = or_refuse 400 (current_user_id who) λ user_id w.
    let path = trim_prefix r.path "/v1/bookings/" in
    let moved =
      with_body (decode_json_body s s.json.booking_state r)
        (λ state w.
          answer 200 Body.booking 400
            (transition_for_actor user_id (trim_suffix path "/state") state w))
        w in
    if not (has_suffix path "/state") then (not_found, w) else moved

unfoldable pub review_create : Handler
unfolding current_user_id trim_prefix has_suffix trim_suffix not_found decode_json_body
    create_for_actor
review_create s who r w =
    let booking_id = trim_suffix (trim_prefix r.path "/v1/bookings/") "/reviews" in
    let created =
      or_refuse 400 (current_user_id who)
        (λ user_id. with_body (decode_json_body s s.json.review r) λ body w.
          answer 201 Body.review 400
            (create_for_actor booking_id user_id body.rating body.comment w))
        w in
    if not (has_suffix r.path "/reviews") then (not_found, w) else created

unfoldable pub booking_actions : Handler
unfolding trim_prefix has_suffix booking_transition review_create not_found
booking_actions s who r w =
    let path = trim_prefix r.path "/v1/bookings/" in
    if has_suffix path "/state"
    then booking_transition s who r w
    else if has_suffix path "/reviews"
    then review_create s who r w
    else (not_found, w)
