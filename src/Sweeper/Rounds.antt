-- ===== src/Sweeper/Rounds.antt =====
-- What a round of internal/background/offers/sweeper.go does to the offers.
use smallworld_be.Prelude.{
  suc, String, ◌==◌, ◌≡◌, refl, ◌⊎◌, inl, inr, true, false, some, arith, eq_iff, List, [], ◌∷◌,
  Bool-cases, Option-cases, sym, subst, ap, ◌∙◌,
}
use smallworld_be.Prelude.Int.{◌-ℤ◌, leb_ℤ}
use smallworld_be.Prelude.Table.{get, put, get-put, values}
use smallworld_be.Domain.States.{RideOfferState}
use smallworld_be.Domain.Models.{Time, RideOffer}
use smallworld_be.Domain.Errors.{ok}
use smallworld_be.World.{World}
use smallworld_be.World.Calls.{ephemeral_delete}
use smallworld_be.Prelude.Lists.{All, Among, select-Among}
use smallworld_be.Prelude.Table.{values-Among}
use smallworld_be.Memory.{list_pending, transition_pending, is_pending}
use smallworld_be.Sweeper.{Config, classify, sweep_offer, sweep_all, sweep_once}
use smallworld_be.Ledger.Keys.{KeyedBy}
use smallworld_be.Ledger.Distinct.{IsDistinct, Listed, Listed-put, values-Listed, select-Listed}

abbrev id_of : RideOffer → String
id_of o = o.id

abbrev pub expired : RideOffer → Time → RideOffer
expired o t = record o { state = RideOfferState.expired; updated_at = t }

-- The time since the offer was made has reached the limit.
abbrev pub IsOver : Config → Time → RideOffer → Type 0
IsOver c t o = leb_ℤ c.pending_offer_ttl (t -ℤ o.created_at) ≡ true

module _ (c : Config) (t : Time) where
  -- A round for one offer leaves the table of offers, or writes that offer's row.
  sweep_offer-offers :
      (o : RideOffer) (w : World)
      → ((sweep_offer c t o w).1.ride_offers ≡ w.ride_offers)
        ⊎ ((o' : RideOffer) × ((sweep_offer c t o w).1.ride_offers ≡ put o.id o' w.ride_offers))
  unfolding sweep_offer transition_pending ephemeral_delete
  sweep_offer-offers o w = elim (Option-cases (classify c t o w)) [
    | inl e ↦ inl (ground arith)
    | inr (v, e) ↦ elim (Option-cases (get o.id w.ride_offers)) [
      | inl g ↦ inl (ground arith)
      | inr (x, g) ↦ elim (Bool-cases (is_pending x.state)) [
        | inr p ↦ inl (ground arith)
        | inl p ↦ inr (record x { state = v.next; updated_at = t }, ground arith)
      ]
    ]
  ]

  sweep_offer-expired :
      (o : RideOffer) (w : World)
      → get o.id w.ride_offers ≡ some o
      → is_pending o.state ≡ true
      → IsOver c t o
      → get o.id (sweep_offer c t o w).1.ride_offers ≡ some (expired o t)
  unfolding sweep_offer transition_pending classify ephemeral_delete
  sweep_offer-expired o w g p h =
      ground (arith, get-put o.id o.id (expired o t) w.ride_offers, eq_iff o.id o.id)

  sweep_offer-other :
      (k : String) (o : RideOffer) (w : World)
      → (k == o.id) ≡ false
      → get k (sweep_offer c t o w).1.ride_offers ≡ get k w.ride_offers
  sweep_offer-other k o w n = elim (sweep_offer-offers o w) [
    | inl e ↦ ground arith
    | inr (o', e) ↦ ground (arith, get-put o.id k o' w.ride_offers, eq_iff o.id k, eq_iff k o.id)
  ]

  sweep_offer-Listed :
      (o : RideOffer) (os : List RideOffer) (w : World)
      → Listed id_of w.ride_offers (o ∷ os)
      → Listed id_of (sweep_offer c t o w).1.ride_offers os
  sweep_offer-Listed o os w l = elim (sweep_offer-offers o w) [
    | inl e ↦ subst (λ m. Listed id_of m os) (sym e) l.2
    | inr (o', e) ↦
        subst (λ m. Listed id_of m os) (sym e) (Listed-put id_of o.id o' w.ride_offers os l.1 l.2)
  ]

  sweep_offer-ok : (o : RideOffer) (w : World) → (sweep_offer c t o w).0 ≡ ok tt
  unfolding sweep_offer
  sweep_offer-ok o w = ground arith

  sweep_all-others :
      (k : String) (os : List RideOffer) (w : World)
      → All (λ (o : RideOffer). (k == o.id) ≡ false) os
      → get k (sweep_all c t os w).1.ride_offers ≡ get k w.ride_offers
  unfolding sweep_all
  sweep_all-others k [] w a = refl
  sweep_all-others k (o ∷ os) w a =
      rw (sweep_offer-ok o w)
        (sweep_all-others k os (sweep_offer c t o w).1 a.1 ∙ sweep_offer-other k o w a.0)

  listed_apart :
      (o : RideOffer) (os : List RideOffer) (x : RideOffer)
      → All (λ (y : RideOffer). (x.id == y.id) ≡ false) os
      → Among o os
      → (o.id == x.id) ≡ false
  listed_apart o [] x a m = absurd m
  listed_apart o (y ∷ os) x a (inl e) = ground (arith, eq_iff o.id x.id, eq_iff x.id y.id)
  listed_apart o (y ∷ os) x a (inr m) = listed_apart o os x a.1 m

  sweep_all-first :
      (o : RideOffer) (os : List RideOffer) (w : World)
      → Listed id_of w.ride_offers (o ∷ os)
      → is_pending o.state ≡ true
      → IsOver c t o
      → get o.id (sweep_all c t (o ∷ os) w).1.ride_offers ≡ some (expired o t)
  unfolding sweep_all
  sweep_all-first o os w l p h =
      rw (sweep_offer-ok o w)
        (sweep_all-others o.id os (sweep_offer c t o w).1 l.1 ∙ sweep_offer-expired o w l.0 p h)

  sweep_all-expired :
      (o : RideOffer) (os : List RideOffer) (w : World)
      → Listed id_of w.ride_offers os
      → Among o os
      → is_pending o.state ≡ true
      → IsOver c t o
      → get o.id (sweep_all c t os w).1.ride_offers ≡ some (expired o t)
  unfolding sweep_all
  sweep_all-expired o [] w l m p h = absurd m
  sweep_all-expired o (x ∷ os) w l (inl e) p h =
      let l' : Listed id_of w.ride_offers (o ∷ os) =
        subst (λ (y : RideOffer). Listed id_of w.ride_offers (y ∷ os)) (sym e) l in
      subst
        (λ (y : RideOffer). get o.id (sweep_all c t (y ∷ os) w).1.ride_offers ≡ some (expired o t))
        e (sweep_all-first o os w l' p h)
  sweep_all-expired o (x ∷ os) w l (inr m) p h =
      rw (sweep_offer-ok x w)
        (sweep_all-expired o os (sweep_offer c t x w).1 (sweep_offer-Listed x os w l) m p h)

-- A round of the sweeper expires every pending offer that is over: where each offer is stored once
-- and under its own id, an offer that is pending and whose time has reached the limit when the round
-- reads the clock is expired after the round.
pub sweep_once-expired :
    (c : Config) (w : World) (o : RideOffer)
    → KeyedBy id_of w.ride_offers
    → IsDistinct w.ride_offers
    → get o.id w.ride_offers ≡ some o
    → o.state ≡ RideOfferState.pending
    → IsOver c (w.clock w.ticks) o
    → get o.id (sweep_once c w).1.ride_offers ≡ some (expired o (w.clock w.ticks))
unfolding sweep_once list_pending
sweep_once-expired c w o k d g p h =
    let listed =
      select-Listed id_of (λ (x : RideOffer). is_pending x.state) _ _
        (values-Listed id_of w.ride_offers d k) in
    sweep_all-expired c (w.clock w.ticks) o _ (record w { ticks = suc w.ticks }) listed
      (select-Among (λ (x : RideOffer). is_pending x.state) o (values w.ride_offers)
        (ap is_pending p) (values-Among o.id o w.ride_offers g))
      (ap is_pending p) h
