-- ===== src/Postgres/Offers.antt =====
-- RideOffers of internal/infrastructure/postgres/repositories.go.
use smallworld_be.Prelude.{
  String, ◌==◌, Bool, true, false, ◌&&◌, Option, none, some, List, if◌then◌else◌,
}
use smallworld_be.Prelude.Int.{ltb_ℤ}
use smallworld_be.Prelude.Lists.{select}
use smallworld_be.Prelude.Sort.{sort}
use smallworld_be.Prelude.Table.{Table, get, put, values}
use smallworld_be.Domain.States.{RideOfferState}
use smallworld_be.Domain.Models.{Time, DriverSession, RideOffer}
use smallworld_be.Domain.Errors.{ok, err, offer_not_found}
use smallworld_be.World.Exec.{Exec, or_fail}
use smallworld_be.Memory.{set_store, first_or}
use smallworld_be.Postgres.{Pool, statement, upsert}

unfoldable pub offer_row : Pool → RideOffer → RideOffer
offer_row p o = record o { created_at = p.time o.created_at; updated_at = p.time o.updated_at }

unfoldable pub save_offer : Pool → RideOffer → Exec (Unit {0})
unfolding offer_row upsert statement
save_offer p o = statement p "save ride offer" λ w.
    set_store
      (record w.store {
        ride_offers =
            upsert (λ old new. record new { created_at = old.created_at }) o.id (offer_row p o)
              w.ride_offers;
      })
      w

unfoldable pub find_offer : Pool → String → Exec RideOffer
unfolding statement
find_offer p id =
    statement p "find ride offer by id" λ w. (or_fail (get id w.ride_offers) offer_not_found, w)

-- state = 'pending'
unfoldable pub is_waiting : RideOfferState → Bool
is_waiting RideOfferState.pending = true
is_waiting _ = false

-- ORDER BY created_at DESC
unfoldable pub offer_newer : RideOffer → RideOffer → Bool
offer_newer a b = ltb_ℤ b.created_at a.created_at

-- ORDER BY created_at ASC
unfoldable pub offer_older : RideOffer → RideOffer → Bool
offer_older a b = ltb_ℤ a.created_at b.created_at

-- LIMIT 1
unfoldable pub find_pending_by_demand : Pool → String → Exec RideOffer
unfolding is_waiting offer_newer sort statement
find_pending_by_demand p demand_id = statement p "scan ride offer" λ w. (
  first_or offer_not_found (
      sort offer_newer
        (select (λ o. o.demand_id == demand_id && is_waiting o.state) (values w.ride_offers))),
  w,
)

unfoldable pub list_pending : Pool → Exec (List RideOffer)
unfolding is_waiting offer_older sort statement
list_pending p =
    statement p "list pending ride offers"
      λ w. (ok (sort offer_older (select (λ o. is_waiting o.state) (values w.ride_offers))), w)

-- INNER JOIN driver_sessions ds ON ds.id = ro.driver_session_id, which gives one row at most for
-- an offer since ds.id is the primary key; WHERE ds.driver_id = …
unfoldable pub joins : String → Table DriverSession → RideOffer → Bool
joins driver_id sessions o = elim (get o.driver_session_id sessions) [
  | none ↦ false
  | some d ↦ d.driver_id == driver_id
]

unfoldable pub list_pending_by_driver : Pool → String → Exec (List RideOffer)
unfolding is_waiting joins offer_newer sort statement
list_pending_by_driver p driver_id = statement p "list pending ride offers by driver id" λ w. (
  ok (
      sort offer_newer (
        select (λ o. joins driver_id w.driver_sessions o && is_waiting o.state)
          (values w.ride_offers))),
  w,
)

-- UPDATE … WHERE id = … AND state = 'pending' RETURNING …
abbrev update_pending : Pool → String → RideOfferState → Time → Option RideOffer → Exec RideOffer
update_pending p id next updated_at none w = (err offer_not_found, w)
update_pending p id next updated_at (some o) w =
    let o' = record o { state = next; updated_at = p.time updated_at } in
    if is_waiting o.state
    then (ok o', record w { store = record w.store { ride_offers = put id o' w.ride_offers } })
    else (err offer_not_found, w)

unfoldable pub transition_pending : Pool → String → RideOfferState → Time → Exec RideOffer
unfolding is_waiting statement
transition_pending p id next updated_at =
    statement p "scan ride offer" λ w. update_pending p id next updated_at (get id w.ride_offers) w
