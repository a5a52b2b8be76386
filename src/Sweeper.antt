-- ===== src/Sweeper.antt =====
-- internal/background/offers/sweeper.go: pending offers that have run out, or that nobody can
-- accept or wants any more, leave the pending state. A lookup whose error the source drops gives a
-- zero value there, and `none` here.
pub mod Rounds
use smallworld_be.Prelude.{
  ◌==◌, Bool, true, false, not, ◌&&◌, Option, none, some, List, [], ◌∷◌, if◌then◌else◌,
}
use Prim.Native.String.{◌++◌ as str_append}
use smallworld_be.Prelude.Int.{pos, ◌-ℤ◌, ltb_ℤ, leb_ℤ}
use smallworld_be.Domain.States.{RideOfferState, TripDemandState, DriverSessionState, offer_text}
use smallworld_be.Domain.Models.{Time, Duration, DriverSession, TripDemand, RideOffer}
use smallworld_be.Domain.Errors.{Result, ok, err}
use smallworld_be.World.{World, Payload}
use smallworld_be.World.Exec.{Exec, pure, ignore, ◌>>=◌, ◌>>◌}
use smallworld_be.World.Calls.{now, publish, ephemeral_delete}
use smallworld_be.Prelude.Table.{get}
use smallworld_be.Memory.{list_pending, transition_pending, save_demand}

pub record Config : Type 0 where
  pub poll_interval : Duration
  pub pending_offer_ttl : Duration
  pub max_driver_session_staleness : Duration

abbrev or_default : Duration → Duration → Duration
or_default d default = if leb_ℤ d (pos 0) then default else d

-- `NewSweeper` replaces what is not positive: 5 seconds, and 2 minutes.
unfoldable pub new_config : Config → Config
new_config c = record c {
  poll_interval = or_default c.poll_interval (pos 5_000_000_000);
  pending_offer_ttl = or_default c.pending_offer_ttl (pos 120_000_000_000);
}

pub record Verdict : Type 0 where
  pub next : RideOfferState
  pub demand : Option TripDemand
  pub session : Option DriverSession

abbrev pub is_closed_demand : TripDemandState → Bool
is_closed_demand TripDemandState.canceled = true
is_closed_demand TripDemandState.aborted = true
is_closed_demand TripDemandState.matched = true
is_closed_demand _ = false

abbrev pub is_paused_or_ended : DriverSessionState → Bool
is_paused_or_ended DriverSessionState.paused = true
is_paused_or_ended DriverSessionState.ended = true
is_paused_or_ended _ = false

abbrev withdraw : Option TripDemand → Option DriverSession → Option Verdict
withdraw d s = some (record { next = RideOfferState.withdrawn; demand = d; session = s })

-- The part of `classifyPendingOffer` for an offer in time, given what the lookups find.
unfoldable pub classify_in_time :
    Config → Time → Option TripDemand → Option DriverSession → Option Verdict
unfolding ◌-ℤ◌
classify_in_time c t none session = withdraw none session
classify_in_time c t (some d) none = withdraw (some d) none
classify_in_time c t (some d) (some s) =
    if is_closed_demand d.state
    then withdraw (some d) (some s)
    else if is_paused_or_ended s.state
    then withdraw (some d) (some s)
    else if ltb_ℤ (pos 0) c.max_driver_session_staleness
        && ltb_ℤ c.max_driver_session_staleness (t -ℤ s.last_heartbeat_at)
    then withdraw (some d) (some s)
    else none

-- `classifyPendingOffer`; `none` leaves the offer alone.
unfoldable pub classify : Config → Time → RideOffer → World → Option Verdict
unfolding classify_in_time ◌-ℤ◌
classify c t offer w =
    let demand = get offer.demand_id w.trip_demands in
    let session = get offer.driver_session_id w.driver_sessions in
    if leb_ℤ c.pending_offer_ttl (t -ℤ offer.created_at)
    then some (record { next = RideOfferState.expired; demand = demand; session = session })
    else classify_in_time c t demand session

-- if s.realtime != nil && session.DriverID != "" { … }
abbrev pub tell_driver : Option DriverSession → RideOffer → Exec (Unit {0})
tell_driver none offer w = (ok tt, w)
tell_driver (some s) offer w =
    if w.has_realtime && not (s.driver_id == "")
    then publish s.driver_id (str_append "ride_offer." (offer_text offer.state))
        (Payload.offer offer) w
    else (ok tt, w)

abbrev pub is_offered : TripDemandState → Bool
is_offered TripDemandState.offered = true
is_offered _ = false

unfoldable pub reopened_demand : TripDemand → Time → TripDemand
reopened_demand d t = record d { state = TripDemandState.searching; updated_at = t }

abbrev tell_rider : TripDemand → Exec (Unit {0})
tell_rider d w =
    if w.has_realtime
    then publish d.rider_id "trip_demand.searching" (Payload.demand d) w
    else (ok tt, w)

-- if demand.ID != "" && demand.State == Offered { … }
abbrev pub reopen : Option TripDemand → Time → Exec (Unit {0})
reopen none t w = (ok tt, w)
reopen (some d) t w =
    let save = save_demand (reopened_demand d t) >> tell_rider (reopened_demand d t) in
    if not (d.id == "") && is_offered d.state then save w else (ok tt, w)

-- The rest of the loop's body once the offer has left the pending state.
abbrev pub after_transition : Verdict → Time → Result RideOffer → Exec (Unit {0})
after_transition v t (err e) = pure tt
after_transition v t (ok offer) = do
  ignore (ephemeral_delete offer.id)
  tell_driver v.session offer
  reopen v.demand t

abbrev pub settle : Option Verdict → Time → RideOffer → Exec (Unit {0})
settle none t offer w = (ok tt, w)
settle (some v) t offer w =
    after_transition v t (transition_pending offer.id v.next t w).0
      (transition_pending offer.id v.next t w).1

-- One round of the loop.
unfoldable pub sweep_offer : Config → Time → RideOffer → Exec (Unit {0})
sweep_offer c t offer w = settle (classify c t offer w) t offer w

unfoldable pub sweep_all : Config → Time → List RideOffer → Exec (Unit {0})
sweep_all c t [] = pure tt
sweep_all c t (o ∷ os) = sweep_offer c t o >> sweep_all c t os

unfoldable pub sweep_once : Config → Exec (Unit {0})
sweep_once c = do pending ← list_pending; t ← now; sweep_all c t pending
