-- ===== src/Http/Paths.antt =====
-- The id in a path of internal/interfaces/http is the one that the service is given.
use Prim.Native.String.{◌++◌}
use text.Mathlib.TextLemmas.{append_assoc}
use smallworld_be.Prelude.{
  String, ◌==◌, ◌≡◌, ◌≢◌, refl, subst, inl, inr, true, some, eq_iff, Bool-cases,
}
use smallworld_be.Domain.Errors.{ok}
use smallworld_be.World.{World}
use smallworld_be.Services.Demands.{cancel}
use smallworld_be.Services.Offers.{accept}
use smallworld_be.Text.{has_suffix}
use smallworld_be.Text.Laws.{trim_prefix-append, has_suffix-append, trim_suffix-append}
use smallworld_be.Http.Messages.{Request, Body, answer}
use smallworld_be.Http.Server.{Server, or_refuse}
use smallworld_be.Http.Auth.{RequestIdentity, current_user_id}
use smallworld_be.Http.Actions.{
  driver_session_actions, session_heartbeat, trip_demand_actions, offer_actions,
}

current_user_id-some :
    (who : RequestIdentity) → who.user_id ≢ "" → current_user_id (some who) ≡ ok who.user_id
unfolding current_user_id
current_user_id-some who n = elim (Bool-cases (who.user_id == "")) [
  | inl e ↦ absurd (n ((eq_iff who.user_id "").0 e))
  | inr e ↦ rw e refl
]

has_suffix-middle : (p id t : String) → has_suffix (p ++ (id ++ t)) t ≡ true
has_suffix-middle p id t =
    subst (λ x. has_suffix x t ≡ true) (append_assoc p id t) (has_suffix-append (p ++ id) t)

abbrev pub at_path : Request → String → Request
at_path r path = record r { path = path }

module _ (s : Server) (who : RequestIdentity) (r : Request) (w : World) (id : String)
    (n : who.user_id ≢ "") where
  accept_path :
      offer_actions s (some who) (at_path r ("/v1/ride-offers/" ++ (id ++ "/accept"))) w
      ≡ answer 200 Body.booking 400 (accept who.user_id id w)
  unfolding offer_actions or_refuse
  accept_path =
      rw
        (
          trim_prefix-append "/v1/ride-offers/" (id ++ "/accept"),
          has_suffix-append id "/accept",
          trim_suffix-append id "/accept",
          current_user_id-some who n,
        )
        refl

  cancel_path :
      trip_demand_actions s (some who) (at_path r ("/v1/trip-demands/" ++ (id ++ "/cancel"))) w
      ≡ answer 200 Body.demand 400 (cancel who.user_id id w)
  unfolding trip_demand_actions or_refuse
  cancel_path =
      rw
        (
          has_suffix-middle "/v1/trip-demands/" id "/cancel",
          trim_prefix-append "/v1/trip-demands/" (id ++ "/cancel"),
          trim_suffix-append id "/cancel",
          current_user_id-some who n,
        )
        refl

  heartbeat_path :
      driver_session_actions s
        (some who)
        (at_path r ("/v1/driver-sessions/" ++ (id ++ "/heartbeat")))
        w
      ≡ session_heartbeat s who.user_id id r w
  unfolding driver_session_actions session_heartbeat or_refuse
  heartbeat_path =
      rw
        (
          trim_prefix-append "/v1/driver-sessions/" (id ++ "/heartbeat"),
          has_suffix-append id "/heartbeat",
          trim_suffix-append id "/heartbeat",
          current_user_id-some who n,
        )
        refl

-- The handlers that are given a path take the id out of it exactly as it was put between the
-- prefix and the action, for a caller with a user: for accepting an offer, for canceling a demand
-- and for the heartbeat of a session. This is about the handlers alone: the router before them
-- redirects some paths, and the decoding of a URL comes before it.
pub id-paths :
    (s : Server) (who : RequestIdentity) (r : Request) (w : World) (id : String)
    → who.user_id ≢ ""
    → (offer_actions s (some who) (at_path r ("/v1/ride-offers/" ++ (id ++ "/accept"))) w
        ≡ answer 200 Body.booking 400 (accept who.user_id id w))
      × (trip_demand_actions s (some who) (at_path r ("/v1/trip-demands/" ++ (id ++ "/cancel"))) w
          ≡ answer 200 Body.demand 400 (cancel who.user_id id w))
      × (driver_session_actions s
            (some who)
            (at_path r ("/v1/driver-sessions/" ++ (id ++ "/heartbeat")))
            w
          ≡ session_heartbeat s who.user_id id r w)
id-paths s who r w id n =
    (accept_path s who r w id n, cancel_path s who r w id n, heartbeat_path s who r w id n)
