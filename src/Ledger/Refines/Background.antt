-- ===== src/Ledger/Refines/Background.antt =====
-- sweeper.go and reconciler.go.
use smallworld_be.Prelude.{
  suc, ◌≡◌, refl, ◌⊎◌, true, false, none, some, List, [], ◌∷◌, arith, inl, inr, Option-cases,
  Bool-cases,
}
use smallworld_be.Prelude.Table.{get, put}
use smallworld_be.Domain.States.{RideOfferState}
use smallworld_be.Domain.Models.{Time, TripDemand, RideOffer}
use smallworld_be.Domain.Errors.{ok}
use smallworld_be.Domain.Policies.{offer_can_transition, demand_can_transition}
use smallworld_be.World.{World, Store}
use smallworld_be.World.Calls.{ephemeral_delete}
use smallworld_be.Memory.{list_pending, transition_pending, is_pending}
use smallworld_be.Sweeper.{
  Config, Verdict, classify, classify_in_time, sweep_offer, sweep_all, sweep_once, reopened_demand,
  is_offered,
}
use smallworld_be.Ledger.Tables.{IsKeyed, Steps-IsKeyed}
use smallworld_be.Ledger.{Steps, Step, next, here, Steps-trans}
use smallworld_be.Ledger.Refines.{Steps-of_eq, Steps-of_step}

-- A verdict carries the demand that the store holds.
classify-demand :
    (c : Config) (t : Time) (o : RideOffer) (w : World) (v : Verdict)
    → classify c t o w ≡ some v
    → (v.demand ≡ get o.demand_id w.trip_demands)
      × (offer_can_transition RideOfferState.pending v.next ≡ true)
unfolding classify classify_in_time offer_can_transition
classify-demand c t o w v h = ground arith

-- The store with an offer out of the pending state, and with a demand reopened.
abbrev offer_moved : RideOffer → RideOfferState → Time → Store → Store
offer_moved o to t s = record s {
  ride_offers = put o.id (record o { state = to; updated_at = t }) s.ride_offers;
}

abbrev demand_reopened : TripDemand → Time → Store → Store
demand_reopened d t s = record s { trip_demands = put d.id (reopened_demand d t) s.trip_demands }

module _ (c : Config) (t : Time) (o : RideOffer) (w : World) (v : Verdict)
    (verdict : classify c t o w ≡ some v) where
  -- Nobody has the offer pending any more.
  sweep_offer_missed :
      ((x : RideOffer) → get o.id w.ride_offers ≡ some x → is_pending x.state ≡ false)
      → (sweep_offer c t o w).1.store ≡ w.store
  unfolding sweep_offer transition_pending
  sweep_offer_missed h = elim (Option-cases (get o.id w.ride_offers)) [
    | inl e ↦ ground arith
    | inr (x, e) ↦ ground (arith, h x e)
  ]

  sweep_offer_moved :
      (x : RideOffer)
      → get o.id w.ride_offers ≡ some x
      → x.id ≡ o.id
      → is_pending x.state ≡ true
      → get o.demand_id w.trip_demands ≡ none
      → (sweep_offer c t o w).1.store ≡ offer_moved x v.next t w.store
  unfolding sweep_offer transition_pending ephemeral_delete
  sweep_offer_moved x e i p g = ground (arith, (classify-demand c t o w v verdict).0)

  sweep_offer_reopened :
      (x : RideOffer) (d : TripDemand)
      → get o.id w.ride_offers ≡ some x
      → x.id ≡ o.id
      → is_pending x.state ≡ true
      → get o.demand_id w.trip_demands ≡ some d
      → ((sweep_offer c t o w).1.store ≡ offer_moved x v.next t w.store)
        ⊎ ((is_offered d.state ≡ true)
            × ((sweep_offer c t o w).1.store
                ≡ demand_reopened d t (offer_moved x v.next t w.store)))
  unfolding sweep_offer transition_pending ephemeral_delete reopened_demand
  sweep_offer_reopened x d e i p g = ground (arith, (classify-demand c t o w v verdict).0)

-- The two steps of a round, for an offer that is found pending.
module _ (o : RideOffer) (to : RideOfferState) (t : Time) (s : Store) where
  first_step :
      get o.id s.ride_offers ≡ some o
      → is_pending o.state ≡ true
      → offer_can_transition RideOfferState.pending to ≡ true
      → Steps s (offer_moved o to t s)
  unfolding offer_can_transition
  first_step g p m =
      Steps-of_step
        (Step.move_offer o (record o { state = to; updated_at = t }) g (ground arith) refl)

  both-Steps :
      (d : TripDemand)
      → get o.id s.ride_offers ≡ some o
      → is_pending o.state ≡ true
      → offer_can_transition RideOfferState.pending to ≡ true
      → get d.id s.trip_demands ≡ some d
      → is_offered d.state ≡ true
      → Steps s (demand_reopened d t (offer_moved o to t s))
  unfolding reopened_demand demand_can_transition
  both-Steps d g p m h i =
      next (first_step g p m) (Step.move_demand d (reopened_demand d t) h (ground arith) refl)

sweep_offer-none :
    (c : Config) (t : Time) (o : RideOffer) (w : World)
    → classify c t o w ≡ none
    → (sweep_offer c t o w).1.store ≡ w.store
unfolding sweep_offer
sweep_offer-none c t o w e = ground arith

sweep_found :
    (c : Config) (t : Time) (o : RideOffer) (w : World) (v : Verdict) (x : RideOffer)
    → IsKeyed w.store
    → classify c t o w ≡ some v
    → get o.id w.ride_offers ≡ some x
    → is_pending x.state ≡ true
    → Steps w.store (sweep_offer c t o w).1.store
sweep_found c t o w v x k e g p =
    let i = k.offers o.id x g in
    let g' : get x.id w.ride_offers ≡ some x = ground arith in
    let m = (classify-demand c t o w v e).1 in
    elim (Option-cases (get o.demand_id w.trip_demands)) [
      | inl n ↦ rw (sweep_offer_moved c t o w v e x g i p n) (first_step x v.next t w.store g' p m)
      | inr (d, h) ↦ elim (sweep_offer_reopened c t o w v e x d g i p h) [
        | inl s ↦ rw s (first_step x v.next t w.store g' p m)
        | inr (f, s) ↦
            rw s
              (both-Steps x v.next t w.store d g' p m (ground (arith, k.demands o.demand_id d h)) f)
      ]
    ]

-- The offer need not be as it is stored now: a round may have listed it long before.
pub sweep_offer-Steps :
    (c : Config) (t : Time) (o : RideOffer) (w : World)
    → IsKeyed w.store
    → Steps w.store (sweep_offer c t o w).1.store
sweep_offer-Steps c t o w k = elim (Option-cases (classify c t o w)) [
  | inl e ↦ Steps-of_eq (sweep_offer-none c t o w e)
  | inr (v, e) ↦ elim (Option-cases (get o.id w.ride_offers)) [
    | inl n ↦ Steps-of_eq (sweep_offer_missed c t o w v e (λ x h. cc))
    | inr (x, g) ↦ elim (Bool-cases (is_pending x.state)) [
      | inl p ↦ sweep_found c t o w v x k e g p
      | inr p ↦ Steps-of_eq (sweep_offer_missed c t o w v e (λ y h. ground arith))
    ]
  ]
]

sweep_offer-ok :
    (c : Config) (t : Time) (o : RideOffer) (w : World) → (sweep_offer c t o w).0 ≡ ok tt
unfolding sweep_offer
sweep_offer-ok c t o w = ground arith

sweep_all-Steps :
    (c : Config) (t : Time) (os : List RideOffer) (w : World)
    → IsKeyed w.store
    → Steps w.store (sweep_all c t os w).1.store
unfolding sweep_all
sweep_all-Steps c t [] w k = here
sweep_all-Steps c t (o ∷ os) w k =
    let first = sweep_offer-Steps c t o w k in
    rw (sweep_offer-ok c t o w, sweep_all)
      (Steps-trans first (sweep_all-Steps c t os (sweep_offer c t o w).1 (Steps-IsKeyed first k)))

pub sweep_once-Steps :
    (c : Config) (w : World) → IsKeyed w.store → Steps w.store (sweep_once c w).1.store
unfolding sweep_once list_pending
sweep_once-Steps c w k = sweep_all-Steps c _ _ (record w { ticks = suc w.ticks }) k
