-- ===== src/Ledger/Refines/Demands.antt =====
-- trip_demand_service.go.
use smallworld_be.Prelude.{
  String, suc, ◌≡◌, refl, subst, ap, ◌∙◌, Option, none, some, List, [], ◌∷◌, arith, inl, inr,
  Option-cases, eq_iff,
}
use smallworld_be.Prelude.Table.{empty, get, put, get-put}
use smallworld_be.Domain.States.{TripDemandState}
use smallworld_be.Domain.Models.{DriverSession, TripDemand, MatchCandidate}
use smallworld_be.Domain.Errors.{Result, Result-cases, ok, err, Error}
use smallworld_be.Domain.Policies.{require_transition, demand_can_transition}
use smallworld_be.World.{World, Store, IdempotencyRecord}
use smallworld_be.World.Calls.{ephemeral_save}
use smallworld_be.Services.Inputs.{CreateTripDemandInput}
use smallworld_be.Matching.{find_candidates}
use smallworld_be.Matching.Quiet.{Quiet, Quiet-trans, find_candidates-Quiet}
use smallworld_be.Services.Demands.{
  create, create_new, create_or_replay, match_new, open_demand, run_match, offer_first, offer_best,
  new_offer, offered_demand, new_demand, cancel, canceled_demand, list_candidate_sessions,
  session_verifications,
}
use smallworld_be.Services.Sessions.{known_result}
use smallworld_be.Ledger.Tables.{IsKeyed}
use smallworld_be.Ledger.{Steps, Step, next, here, Steps-trans}
use smallworld_be.Ledger.Refines.{Steps-of_eq, Steps-of_step}

pub cancel-Steps :
    (rider id : String) (w : World) → IsKeyed w.store → Steps w.store (cancel rider id w).1.store
unfolding cancel canceled_demand require_transition
cancel-Steps rider id w k = elim (Option-cases (get id w.trip_demands)) [
  | inl e ↦ Steps-of_eq (ground arith)
  | inr (d, e) ↦ elim (Result-cases (cancel rider id w).0) [
    | inr (x, r) ↦ Steps-of_eq (ground arith)
    | inl (d', r) ↦
        Steps-of_step
          (Step.move_demand d d' (ground (arith, k.demands id d e)) (ground arith) (ground arith))
  ]
]

-- What an offer to the best candidate writes: an offer, and the demand that has it.
offer_best-Steps :
    (d : TripDemand) (c : MatchCandidate) (w : World)
    → d.state ≡ TripDemandState.searching
    → get d.id w.trip_demands ≡ some d
    → get (w.new_id w.seq "offer") w.ride_offers ≡ none
    → Steps w.store (offer_best d c w).1.store
unfolding offer_best new_offer offered_demand ephemeral_save demand_can_transition
offer_best-Steps d c w st g f = elim (Result-cases (w.quote c)) [
  | inr (x, e) ↦ Steps-of_eq (ground arith)
  | inl (fare, e) ↦
      let o =
        new_offer (w.new_id w.seq "offer") d c fare (w.clock w.ticks) (w.clock (suc w.ticks)) in
      let d' = offered_demand d c (w.clock (suc (suc w.ticks))) in
      let u : Store = record w.store { ride_offers = put o.id o w.ride_offers } in
      let first : Steps w.store u = Steps-of_step (Step.make_offer o f refl refl) in
      next first (Step.move_demand d d' g (ground arith) (ground arith))
]

pub list_candidate_sessions-Quiet : (w : World) → Quiet w (list_candidate_sessions w).1
unfolding list_candidate_sessions
list_candidate_sessions-Quiet w = ground arith

offer_first-Steps :
    (d : TripDemand) (cs : List MatchCandidate) (w : World)
    → d.state ≡ TripDemandState.searching
    → get d.id w.trip_demands ≡ some d
    → get (w.new_id w.seq "offer") w.ride_offers ≡ none
    → Steps w.store (offer_first d cs w).1.store
unfolding offer_first
offer_first-Steps d [] w st g f = here
offer_first-Steps d (c ∷ cs) w st g f = offer_best-Steps d c w st g f

-- The world after the presence store is asked, and after the search.
abbrev pub listed : World → World
listed w = (list_candidate_sessions w).1

abbrev pub search_in :
    TripDemand → World → List DriverSession → Result (List MatchCandidate) × World
search_in d w ss =
    find_candidates d (session_verifications (listed w).verifications ss empty) ss (listed w)

pub search_in-Quiet :
    (d : TripDemand) (w : World) (ss : List DriverSession) → Quiet w (search_in d w ss).1
search_in-Quiet d w ss =
    Quiet-trans (list_candidate_sessions-Quiet w) (find_candidates-Quiet d _ ss (listed w))

pub run_match_found :
    (d : TripDemand) (w : World) (ss : List DriverSession) (cs : List MatchCandidate)
    → (list_candidate_sessions w).0 ≡ ok ss
    → (search_in d w ss).0 ≡ ok cs
    → (run_match d w) ≡ (offer_first d cs (search_in d w ss).1)
unfolding run_match
run_match_found d w ss cs e f = ground arith

pub run_match_failed :
    (d : TripDemand) (w : World) (ss : List DriverSession) (x : Error)
    → (list_candidate_sessions w).0 ≡ ok ss
    → (search_in d w ss).0 ≡ err x
    → (run_match d w).1 ≡ (search_in d w ss).1
unfolding run_match
run_match_failed d w ss x e f = ground arith

pub run_match_unlisted :
    (d : TripDemand) (w : World) (x : Error)
    → (list_candidate_sessions w).0 ≡ err x
    → (run_match d w).1 ≡ listed w
unfolding run_match
run_match_unlisted d w x e = ground arith

after_search :
    (d : TripDemand) (cs : List MatchCandidate) (w w' : World)
    → Quiet w w'
    → d.state ≡ TripDemandState.searching
    → get d.id w.trip_demands ≡ some d
    → get (w.new_id w.seq "offer") w.ride_offers ≡ none
    → Steps w.store (offer_first d cs w').1.store
after_search d cs w w' q st g f =
    let steps =
      offer_first-Steps d cs w' st (ground (arith, q.same_store))
        (ground (arith, q.same_store, q.same_seq, q.same_env)) in
    subst (λ (s : Store). Steps s (offer_first d cs w').1.store) q.same_store steps

run_match-Steps :
    (d : TripDemand) (w : World)
    → d.state ≡ TripDemandState.searching
    → get d.id w.trip_demands ≡ some d
    → get (w.new_id w.seq "offer") w.ride_offers ≡ none
    → Steps w.store (run_match d w).1.store
run_match-Steps d w st g f = elim (Result-cases (list_candidate_sessions w).0) [
  | inr (x, e) ↦ Steps-of_eq (
      ap (λ (v : World). v.store) (run_match_unlisted d w x e)
      ∙ (list_candidate_sessions-Quiet w).same_store)
  | inl (ss, e) ↦ elim (Result-cases (search_in d w ss).0) [
    | inr (x, e') ↦ Steps-of_eq (
        ap (λ (v : World). v.store) (run_match_failed d w ss x e e')
        ∙ (search_in-Quiet d w ss).same_store)
    | inl (cs, e') ↦
        rw (run_match_found d w ss cs e e')
          (after_search d cs w (search_in d w ss).1 (search_in-Quiet d w ss) st g f)
  ]
]

-- What `open_demand` writes: nothing, or a new demand in the state searching.
open_demand-Steps :
    (i : CreateTripDemandInput) (w : World)
    → get (w.new_id w.seq "td") w.trip_demands ≡ none
    → Steps w.store (open_demand i w).1.store
unfolding open_demand new_demand
open_demand-Steps i w f = elim (Result-cases (open_demand i w).0) [
  | inr (x, r) ↦ Steps-of_eq (ground arith)
  | inl (d, r) ↦
      let u : Store = record w.store { trip_demands = put d.id d w.trip_demands } in
      let first : Steps w.store u = Steps-of_step (Step.open_demand d (ground arith) refl) in
      next first (Step.aside (ground arith) (ground arith) (ground arith) (ground arith))
]

-- The demand that `open_demand` returns.
record Opened (w : World) (d : TripDemand) (w' : World) : Type 0 where
  searching : d.state ≡ TripDemandState.searching
  stored : get d.id w'.trip_demands ≡ some d
  same_offers : w'.ride_offers ≡ w.ride_offers
  same_env : w'.env ≡ w.env
  next_seq : w'.seq ≡ suc w.seq

open_demand-Opened :
    (i : CreateTripDemandInput) (w : World) (d : TripDemand)
    → (open_demand i w).0 ≡ ok d
    → Opened w d (open_demand i w).1
unfolding open_demand new_demand
open_demand-Opened i w d r = ground (arith, get-put d.id d.id d w.trip_demands, eq_iff d.id d.id)

create_new-Steps :
    (i : CreateTripDemandInput) (w : World)
    → get (w.new_id w.seq "td") w.trip_demands ≡ none
    → get (w.new_id (suc w.seq) "offer") w.ride_offers ≡ none
    → Steps w.store (create_new i w).1.store
unfolding create_new match_new
create_new-Steps i w f h = elim (Result-cases (open_demand i w).0) [
  | inr (x, r) ↦ rw (r, create_new) (open_demand-Steps i w f)
  | inl (d, r) ↦
      let o = open_demand-Opened i w d r in
      let unused : get ((open_demand i w).1.new_id (open_demand i w).1.seq "offer")
            (open_demand i w).1.ride_offers
          ≡ none =
        ground (arith, o.same_offers, o.same_env, o.next_seq) in
      rw (r, create_new)
        (Steps-trans (open_demand-Steps i w f)
          (run_match-Steps d (open_demand i w).1 o.searching o.stored unused))
]

create_or_replay-Steps :
    (known : Option IdempotencyRecord) (i : CreateTripDemandInput) (w : World)
    → get (w.new_id w.seq "td") w.trip_demands ≡ none
    → get (w.new_id (suc w.seq) "offer") w.ride_offers ≡ none
    → Steps w.store (create_or_replay known i w).1.store
unfolding create_or_replay
create_or_replay-Steps none i w f h = create_new-Steps i w f h
create_or_replay-Steps (some r) i w f h = Steps-of_eq (ground arith)

pub create-Steps :
    (i : CreateTripDemandInput) (w : World)
    → get (w.new_id w.seq "td") w.trip_demands ≡ none
    → get (w.new_id (suc w.seq) "offer") w.ride_offers ≡ none
    → Steps w.store (create i w).1.store
unfolding create
create-Steps i w f h = create_or_replay-Steps (known_result i.idempotency_key w) i w f h
