-- ===== src/Memory/Offers.antt =====
-- Ride offers of internal/infrastructure/memory/repositories.go.
use smallworld_be.Prelude.{
  String, ◌==◌, Bool, true, false, ◌&&◌, ◌||◌, Option, none, some, List, [], ◌∷◌, if◌then◌else◌,
}
use smallworld_be.Prelude.Int.{ltb_ℤ}
use smallworld_be.Prelude.Lists.{select}
use smallworld_be.Prelude.Sort.{sort}
use smallworld_be.Prelude.Table.{get, put, values}
use smallworld_be.Domain.States.{RideOfferState, offer_text}
use smallworld_be.Domain.Models.{Time, DriverSession, RideOffer}
use smallworld_be.Domain.Errors.{ok, err, offer_not_found, transition_not_allowed}
use smallworld_be.World.Exec.{Exec, or_fail}
use smallworld_be.Memory.Common.{set_store, first_or}

abbrev pub save_offer : RideOffer → Exec (Unit {0})
save_offer o w = set_store (record w.store { ride_offers = put o.id o w.ride_offers }) w

abbrev pub find_offer : String → Exec RideOffer
find_offer id w = (or_fail (get id w.ride_offers) offer_not_found, w)

abbrev pub is_pending : RideOfferState → Bool
is_pending RideOfferState.pending = true
is_pending _ = false

unfoldable pub find_pending_by_demand : String → Exec RideOffer
find_pending_by_demand demand_id w = (
  first_or offer_not_found
      (select (λ o. o.demand_id == demand_id && is_pending o.state) (values w.ride_offers)),
  w,
)

unfoldable pub list_pending : Exec (List RideOffer)
list_pending w = (ok (select (λ o. is_pending o.state) (values w.ride_offers)), w)

-- The test of a session id against the set that `ListPendingRideOffersByDriverID` builds.
unfoldable pub driven_by : String → List DriverSession → String → Bool
driven_by driver_id [] id = false
driven_by driver_id (s ∷ ss) id =
    (s.driver_id == driver_id && s.id == id) || driven_by driver_id ss id

unfoldable pub offer_before : RideOffer → RideOffer → Bool
offer_before a b = ltb_ℤ b.created_at a.created_at

unfoldable pub list_pending_by_driver : String → Exec (List RideOffer)
unfolding driven_by offer_before sort
list_pending_by_driver driver_id w = (
  ok (
      sort offer_before (
        select
          (λ o.
            is_pending o.state
            && driven_by driver_id (values w.driver_sessions) o.driver_session_id)
          (values w.ride_offers))),
  w,
)

abbrev transition_found : String → RideOfferState → Time → Option RideOffer → Exec RideOffer
transition_found id next updated_at none w = (err offer_not_found, w)
transition_found id next updated_at (some o) w =
    let o' = record o { state = next; updated_at = updated_at } in
    if is_pending o.state
    then (ok o', record w { store = record w.store { ride_offers = put id o' w.ride_offers } })
    else (err (transition_not_allowed "ride_offer" (offer_text o.state) (offer_text next)), w)

unfoldable pub transition_pending : String → RideOfferState → Time → Exec RideOffer
transition_pending id next updated_at w =
    transition_found id next updated_at (get id w.ride_offers) w
