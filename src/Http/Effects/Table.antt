-- ===== src/Http/Effects/Table.antt =====
-- The table of endpoints keeps what its handlers keep.
use smallworld_be.Prelude.{
  String, ◌≡◌, ◌≢◌, refl, subst, inl, inr, Bool, true, false, Option, none, some, List, [], ◌∷◌,
  ◌++◌, arith, eq_iff, Bool-cases,
}
use smallworld_be.Prelude.Lists.{All}
use smallworld_be.World.{World}
use smallworld_be.Http.Messages.{Request, Response}
use smallworld_be.Text.{is_clean}
use smallworld_be.Http.Server.{Server}
use smallworld_be.Http.Auth.{RequestIdentity}
use smallworld_be.Http.Reads.{Handler}
use smallworld_be.Http.Routes.{
  Route, routes, dev_routes, common_routes, matches, matches_method, find_route, run_route,
  dispatch,
}
use smallworld_be.Http.Effects.{Effect, quiet}
use smallworld_be.Http.Effects.Reads.{
  Reads, health-Reads, web_socket-Reads, auth_me-Reads, current_driver_session-Reads,
  current_trip_demand-Reads, current_ride_offers-Reads, current_bookings-Reads, profile_me-Reads,
  vehicle_list-Reads, driver_session_read-Reads, trip_demand_read-Reads, booking_read-Reads,
  user_review_list-Reads,
}
use smallworld_be.Http.Effects.Actions.{
  dev_bootstrap-Acts, profile_upsert-Acts, vehicle_create-Acts, driver_session_create-Acts,
  driver_session_actions-Acts, trip_demand_create-Acts, trip_demand_actions-Acts,
  offer_actions-Acts, booking_actions-Acts,
}
use smallworld_be.Http.Effects.Guards.{
  Guarded, dev_bootstrap-Guarded, profile_upsert-Guarded, vehicle_create-Guarded,
  driver_session_create-Guarded, driver_session_actions-Guarded, trip_demand_create-Guarded,
  trip_demand_actions-Guarded, offer_actions-Guarded, booking_actions-Guarded,
}

-- A handler of this server that makes one call of its caller's own at most.
abbrev pub ActsFor : Server → Handler → Type 0
ActsFor s h =
    (who : RequestIdentity) (r : Request) (w : World) → Effect s who w (h s (some who) r w)

-- An endpoint for GET only reads; one for POST acts for its caller, if it has one.
pub data Proper (s : Server) (route : Route) : Type 0 where
  reading : route.method ≡ "GET" → Reads route.handler → Proper s route
  acting : route.method ≡ "POST" → ActsFor s route.handler → Guarded route.handler → Proper s route

infixr 40 ◌also◌
abbrev ◌also◌ {ℓ κ} : {A : Type ℓ} {B : Type κ} → A → B → A × B
◌also◌ p q = (p, q)

common_routes-Proper : (s : Server) → All (Proper s) common_routes
common_routes-Proper s =
    reading refl health-Reads
    also reading refl web_socket-Reads
    also reading refl auth_me-Reads
    also reading refl current_driver_session-Reads
    also reading refl current_trip_demand-Reads
    also reading refl current_ride_offers-Reads
    also reading refl current_bookings-Reads
    also reading refl profile_me-Reads
    also acting refl (profile_upsert-Acts s) profile_upsert-Guarded
    also reading refl vehicle_list-Reads
    also acting refl (vehicle_create-Acts s) vehicle_create-Guarded
    also acting refl (driver_session_create-Acts s) driver_session_create-Guarded
    also reading refl driver_session_read-Reads
    also acting refl (driver_session_actions-Acts s) driver_session_actions-Guarded
    also acting refl (trip_demand_create-Acts s) trip_demand_create-Guarded
    also reading refl trip_demand_read-Reads
    also acting refl (trip_demand_actions-Acts s) trip_demand_actions-Guarded
    also acting refl (offer_actions-Acts s) offer_actions-Guarded
    also reading refl booking_read-Reads
    also acting refl (booking_actions-Acts s) booking_actions-Guarded
    also reading refl user_review_list-Reads
    also tt

with_dev-Proper :
    (s : Server) (b : Bool)
    → s.enable_dev_bootstrap ≡ b
    → All (Proper s) (dev_routes b ++ common_routes)
with_dev-Proper s false e = common_routes-Proper s
with_dev-Proper s true e =
    acting refl (λ who r w. dev_bootstrap-Acts s who r w e) dev_bootstrap-Guarded
    also common_routes-Proper s

pub routes-Proper : (s : Server) → All (Proper s) (routes s)
unfolding routes
routes-Proper s = with_dev-Proper s s.enable_dev_bootstrap refl

-- What is known of a handler that the table gives for a method.
pub data Fit (s : Server) (method : String) (h : Handler) : Type 0 where
  reading : Reads h → Fit s method h
  acting : method ≡ "POST" → ActsFor s h → Guarded h → Fit s method h

matches_method-post : (method : String) → matches_method "POST" method ≡ true → method ≡ "POST"
matches_method-post method m = (eq_iff method "POST").0 (ground (arith, m))

Proper-Fit :
    (s : Server) (route : Route) (method path : String)
    → Proper s route
    → matches route method path ≡ true
    → Fit s method route.handler
unfolding matches
Proper-Fit s route method path (reading g h) m = Fit.reading h
Proper-Fit s route method path (acting p h u) m =
    Fit.acting
      (matches_method-post method (subst (λ x. matches_method x method ≡ true) p (ground arith))) h
      u

find_route-Fit :
    (s : Server) (table : List Route) (method path : String) (h : Handler)
    → All (Proper s) table
    → find_route table method path ≡ some h
    → Fit s method h
unfolding find_route
find_route-Fit s [] method path h a e = absurd (ground arith)
find_route-Fit s (route ∷ table) method path h a e = elim (Bool-cases (matches route method path)) [
  | inl m ↦ subst (Fit s method) (ground arith) (Proper-Fit s route method path a.0 m)
  | inr m ↦ find_route-Fit s table method path h a.1 (ground arith)
]

module _ (s : Server) (table : List Route) (who : Option RequestIdentity) (r : Request) (w : World)
    (P : Response × World → Type 0) where
  run_route-keeps :
      (x : Option Handler) (other : Response)
      → P (other, w)
      → ((h : Handler) → x ≡ some h → P (h s who r w))
      → P (run_route x other s who r w)
  run_route-keeps none other q k = q
  run_route-keeps (some h) other q k = k h refl

  -- A property of answers holds for the table if it holds for answers that leave the world alone
  -- and for every handler that fits the method.
  pub dispatch-keeps :
      All (Proper s) table
      → ((other : Response) → P (other, w))
      → ((h : Handler) → Fit s r.method h → P (h s who r w))
      → P (dispatch table s who r w)
  unfolding dispatch
  dispatch-keeps a q k = elim (Bool-cases (is_clean r.path)) [
    | inl e ↦ rw e (
        run_route-keeps (find_route table r.method r.path) _ (q _)
          (λ h f. k h (find_route-Fit s table r.method r.path h a f)))
    | inr e ↦ rw e (q (s.redirect r))
  ]

Fit-Effect :
    (s : Server) (who : RequestIdentity) (r : Request) (w : World) (h : Handler)
    → Fit s r.method h
    → Effect s who w (h s (some who) r w)
Fit-Effect s who r w h (reading q) = quiet (q s (some who) r w)
Fit-Effect s who r w h (acting p q g) = q who r w

Fit-anonymous :
    (s : Server) (r : Request) (w : World) (h : Handler) → Fit s r.method h → (h s none r w).1 ≡ w
Fit-anonymous s r w h (reading q) = q s none r w
Fit-anonymous s r w h (acting p q g) = g s r w

Fit-not_post :
    (s : Server) (who : Option RequestIdentity) (r : Request) (w : World) (h : Handler)
    → r.method ≢ "POST"
    → Fit s r.method h
    → (h s who r w).1 ≡ w
Fit-not_post s who r w h n (reading q) = q s who r w
Fit-not_post s who r w h n (acting p q g) = absurd (n p)

pub dispatch-Effect :
    (s : Server) (who : RequestIdentity) (r : Request) (w : World)
    → Effect s who w (dispatch (routes s) s (some who) r w)
dispatch-Effect s who r w =
    dispatch-keeps s (routes s) (some who) r w (Effect s who w) (routes-Proper s)
      (λ other. quiet refl) (Fit-Effect s who r w)

pub dispatch-anonymous :
    (s : Server) (r : Request) (w : World) → (dispatch (routes s) s none r w).1 ≡ w
dispatch-anonymous s r w =
    dispatch-keeps s (routes s) none r w (λ x. x.1 ≡ w) (routes-Proper s) (λ other. refl)
      (Fit-anonymous s r w)

pub dispatch-not_post :
    (s : Server) (who : Option RequestIdentity) (r : Request) (w : World)
    → r.method ≢ "POST"
    → (dispatch (routes s) s who r w).1 ≡ w
dispatch-not_post s who r w n =
    dispatch-keeps s (routes s) who r w (λ x. x.1 ≡ w) (routes-Proper s) (λ other. refl)
      (λ h f. Fit-not_post s who r w h n f)
