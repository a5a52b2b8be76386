-- ===== src/Http/Routes.antt =====
-- `Routes` of internal/interfaces/http/router.go: the table of endpoints, and how net/http's
-- ServeMux chooses among them. Percent-encoding of a path is not modelled.
use Prim.Native.String.{◌++◌ as str_append}
use smallworld_be.Prelude.{
  String, ◌==◌, Bool, true, false, ◌&&◌, ◌||◌, Option, none, some, List, [], ◌∷◌, ◌++◌,
  if◌then◌else◌,
}
use smallworld_be.World.{World}
use smallworld_be.Text.{strip, is_clean}
use smallworld_be.Http.Messages.{Request, Response, plain, write_json}
use smallworld_be.Http.Server.{Server}
use smallworld_be.Http.Auth.{RequestIdentity}
use smallworld_be.Http.Reads.{
  Handler, health, web_socket, auth_me, current_driver_session, current_trip_demand,
  current_ride_offers, current_bookings, profile_me, vehicle_list, driver_session_read,
  trip_demand_read, booking_read, user_review_list,
}
use smallworld_be.Http.Actions.{
  dev_bootstrap, profile_upsert, vehicle_create, driver_session_create, driver_session_actions,
  trip_demand_create, trip_demand_actions, offer_actions, booking_actions,
}

-- A pattern that ends in a slash matches every path that starts with it.
pub data Pattern : Type 0 where
  exact below : String → Pattern

pub record Route : Type 0 where
  pub method : String
  pub pattern : Pattern
  pub handler : Handler

abbrev on_get : Pattern → Handler → Route
on_get p h = record { method = "GET"; pattern = p; handler = h }

abbrev on_post : Pattern → Handler → Route
on_post p h = record { method = "POST"; pattern = p; handler = h }

-- if s.enableDevBootstrap { … }
abbrev pub dev_routes : Bool → List Route
dev_routes false = []
dev_routes true = on_post (exact "/v1/dev/me/bootstrap") dev_bootstrap ∷ []

abbrev pub common_routes : List Route
common_routes =
    on_get (exact "/healthz") health
    ∷ on_get (exact "/v1/ws") web_socket
    ∷ on_get (exact "/v1/auth/me") auth_me
    ∷ on_get (exact "/v1/me/driver-session") current_driver_session
    ∷ on_get (exact "/v1/me/trip-demand") current_trip_demand
    ∷ on_get (exact "/v1/me/ride-offers") current_ride_offers
    ∷ on_get (exact "/v1/me/bookings") current_bookings
    ∷ on_get (exact "/v1/profile/me") profile_me
    ∷ on_post (exact "/v1/profile") profile_upsert
    ∷ on_get (exact "/v1/vehicles") vehicle_list
    ∷ on_post (exact "/v1/vehicles") vehicle_create
    ∷ on_post (exact "/v1/driver-sessions") driver_session_create
    ∷ on_get (below "/v1/driver-sessions/") driver_session_read
    ∷ on_post (below "/v1/driver-sessions/") driver_session_actions
    ∷ on_post (exact "/v1/trip-demands") trip_demand_create
    ∷ on_get (below "/v1/trip-demands/") trip_demand_read
    ∷ on_post (below "/v1/trip-demands/") trip_demand_actions
    ∷ on_post (below "/v1/ride-offers/") offer_actions
    ∷ on_get (below "/v1/bookings/") booking_read
    ∷ on_post (below "/v1/bookings/") booking_actions
    ∷ on_get (below "/v1/users/") user_review_list
    ∷ []

unfoldable pub routes : Server → List Route
routes s = dev_routes s.enable_dev_bootstrap ++ common_routes

abbrev matches_path : Pattern → String → Bool
matches_path (exact p) path = path == p
matches_path (below p) path = elim (strip path p) [ none ↦ false | some rest ↦ true ]

-- A pattern for GET serves HEAD too.
abbrev pub matches_method : String → String → Bool
matches_method of_route method = method == of_route || (of_route == "GET" && method == "HEAD")

unfoldable pub matches : Route → String → String → Bool
unfolding strip
matches route method path = matches_method route.method method && matches_path route.pattern path

-- No two patterns of the table match the same method and path, so their order does not matter.
unfoldable pub find_route : List Route → String → String → Option Handler
unfolding matches
find_route [] method path = none
find_route (route ∷ rest) method path =
    let others = find_route rest method path in
    if matches route method path then some route.handler else others

abbrev is_root : Pattern → String → Bool
is_root (exact p) path = false
is_root (below p) path = path == p

-- Whether a path lacks only the slash at its end.
unfoldable lacks_slash : List Route → String → String → Bool
lacks_slash [] method path = false
lacks_slash (route ∷ rest) method path =
    (matches_method route.method method && is_root route.pattern (str_append path "/"))
    || lacks_slash rest method path

unfoldable has_path : List Route → String → Bool
unfolding strip
has_path [] path = false
has_path (route ∷ rest) path = matches_path route.pattern path || has_path rest path

-- What net/http answers where no pattern matches.
unfoldable pub unrouted : Server → List Route → Request → Response
unfolding lacks_slash has_path write_json
unrouted s table r =
    if lacks_slash table r.method r.path
    then s.redirect r
    else if has_path table r.path
    then write_json 405 (plain "Method Not Allowed\n")
    else write_json 404 (plain "404 page not found\n")

abbrev pub run_route :
    Option Handler → Response → Server → Option RequestIdentity → Request → World → Response × World
run_route none other s who r w = (other, w)
run_route (some handler) other s who r w = handler s who r w

unfoldable pub dispatch :
    List Route → Server → Option RequestIdentity → Request → World → Response × World
unfolding find_route unrouted is_clean
dispatch table s who r w =
    if is_clean r.path
    then run_route (find_route table r.method r.path) (unrouted s table r) s who r w
    else (s.redirect r, w)
