-- ===== src/Http/Reads.antt =====
-- The handlers of GET requests of internal/interfaces/http/router.go.
use smallworld_be.Prelude.{String, ◌==◌, ◌||◌, not, Option, none, some, if◌then◌else◌}
use smallworld_be.Domain.States.{VerificationStatus}
use smallworld_be.Domain.Models.{User, IdentityVerification}
use smallworld_be.Domain.Errors.{Result, ok, err, verification_required}
use smallworld_be.World.{World}
use smallworld_be.Services.Accounts.{find_by_auth_subject, list_by_user, find_verification_by_user}
use smallworld_be.Services.Sessions.Updates.{get_current_for_driver, get_owned}
use smallworld_be.Services.Demands.{get_current_for_rider, get_for_rider}
use smallworld_be.Services.Offers.{list_pending_for_driver}
use smallworld_be.Services.Bookings.{
  list_active_for_actor, get_for_actor, get_driver_tracking_for_rider,
}
use smallworld_be.Services.Reviews.{list_by_subject}
use smallworld_be.Text.{trim_prefix, has_suffix, trim_suffix, has_slash}
use smallworld_be.Http.Messages.{
  Request, Response, Body, OnboardingState, write_json, write_error_message, write_service_error,
  not_found, answer,
}
use smallworld_be.Http.Server.{Server, or_refuse}
use smallworld_be.Http.Auth.{RequestIdentity, require_identity, current_user_id}

abbrev pub Handler : Type 0
Handler = Server → Option RequestIdentity → Request → World → Response × World

unfoldable pub health : Handler
unfolding write_json
health s who r w = (write_json 200 Body.health, w)

unfoldable pub web_socket : Handler
unfolding current_user_id write_json write_error_message
web_socket s who r = or_refuse 400 (current_user_id who) λ user_id w.
    if s.has_web_socket_hub
    then (write_json 101 (Body.upgraded user_id), w)
    else (write_error_message 503 "realtime unavailable", w)

-- The `switch` on the verification, by its status.
unfoldable pub onboarding_of : VerificationStatus → OnboardingState
onboarding_of VerificationStatus.pending = OnboardingState.verification_pending
onboarding_of VerificationStatus.verified = OnboardingState.ready
onboarding_of _ = OnboardingState.needs_verification

abbrev auth_response :
    RequestIdentity → Option User → Option IdentityVerification → OnboardingState → Response
auth_response who user verification state = write_json 200 (
    Body.auth_me (record {
      auth = record { subject = who.subject; provider = who.provider };
      user = user;
      verification = verification;
      onboarding_state = state;
    }))

abbrev with_verification : RequestIdentity → User → Result IdentityVerification → Response
with_verification who user (ok v) = auth_response who (some user) (some v) (onboarding_of v.status)
with_verification who user (err verification_required) =
    auth_response who (some user) none OnboardingState.needs_verification
with_verification who user (err e) = write_service_error e 500

abbrev with_profile : RequestIdentity → World → Result User → Response
with_profile who w (ok user) = with_verification who user (find_verification_by_user user.id w).0
with_profile who w (err e) = write_service_error e 500

unfoldable pub auth_me : Handler
unfolding require_identity write_json write_service_error onboarding_of
auth_me s who r = or_refuse 401 (require_identity who) λ who w.
    if who.user_id == ""
    then (auth_response who none none OnboardingState.needs_profile, w)
    else (with_profile who w (find_by_auth_subject who.subject w).0, w)

unfoldable pub current_driver_session : Handler
unfolding current_user_id get_current_for_driver answer
current_driver_session s who r =
    or_refuse 400 (current_user_id who)
      λ user_id w. answer 200 Body.session 400 (get_current_for_driver user_id w)

unfoldable pub current_trip_demand : Handler
unfolding current_user_id get_current_for_rider answer
current_trip_demand s who r =
    or_refuse 400 (current_user_id who)
      λ user_id w. answer 200 Body.demand 400 (get_current_for_rider user_id w)

unfoldable pub current_ride_offers : Handler
unfolding current_user_id list_pending_for_driver answer
current_ride_offers s who r =
    or_refuse 400 (current_user_id who)
      λ user_id w. answer 200 Body.offers 400 (list_pending_for_driver user_id w)

unfoldable pub current_bookings : Handler
unfolding current_user_id list_active_for_actor answer
current_bookings s who r =
    or_refuse 400 (current_user_id who)
      λ user_id w. answer 200 Body.bookings 400 (list_active_for_actor user_id w)

unfoldable pub profile_me : Handler
unfolding require_identity find_by_auth_subject answer
profile_me s who r =
    or_refuse 401 (require_identity who)
      λ who w. answer 200 Body.user 400 (find_by_auth_subject who.subject w)

unfoldable pub vehicle_list : Handler
unfolding current_user_id list_by_user answer
vehicle_list s who r =
    or_refuse 400 (current_user_id who)
      λ user_id w. answer 200 Body.vehicles 400 (list_by_user user_id w)

unfoldable pub driver_session_read : Handler
unfolding current_user_id trim_prefix has_slash not_found get_owned answer
driver_session_read s who r = or_refuse 400 (current_user_id who) λ user_id w.
    let session_id = trim_prefix r.path "/v1/driver-sessions/" in
    if has_slash session_id
    then (not_found, w)
    else answer 200 Body.session 400 (get_owned user_id session_id w)

unfoldable pub trip_demand_read : Handler
unfolding current_user_id trim_prefix has_slash not_found get_for_rider answer
trip_demand_read s who r = or_refuse 400 (current_user_id who) λ user_id w.
    let demand_id = trim_prefix r.path "/v1/trip-demands/" in
    if has_slash demand_id
    then (not_found, w)
    else answer 200 Body.demand 400 (get_for_rider user_id demand_id w)

unfoldable pub booking_driver_tracking : String → String → World → Response × World
unfolding has_slash not_found get_driver_tracking_for_rider answer
booking_driver_tracking user_id booking_id w =
    if booking_id == "" || has_slash booking_id
    then (not_found, w)
    else answer 200 Body.tracking 400 (get_driver_tracking_for_rider user_id booking_id w)

unfoldable pub booking_read : Handler
unfolding current_user_id trim_prefix has_suffix trim_suffix has_slash not_found
    booking_driver_tracking get_for_actor answer
booking_read s who r = or_refuse 400 (current_user_id who) λ user_id w.
    let path = trim_prefix r.path "/v1/bookings/" in
    if has_suffix path "/driver-tracking"
    then booking_driver_tracking user_id (trim_suffix path "/driver-tracking") w
    else if has_slash path
    then (not_found, w)
    else answer 200 Body.booking 400 (get_for_actor user_id path w)

-- The reviews of any user, which every caller with a token may read.
unfoldable pub user_review_list : Handler
unfolding trim_prefix has_suffix trim_suffix has_slash not_found list_by_subject answer
user_review_list s who r w =
    let user_id = trim_suffix (trim_prefix r.path "/v1/users/") "/reviews" in
    if not (has_suffix r.path "/reviews")
    then (not_found, w)
    else if has_slash user_id || user_id == ""
    then (not_found, w)
    else answer 200 Body.reviews 400 (list_by_subject user_id w)
