-- ===== src/Services/Demands/Replay.antt =====
-- Idempotency keys of `Create`, by trip_demand_service.go.
use smallworld_be.Prelude.{
  ◌==◌, ◌≡◌, ◌∙◌, refl, sym, ap, subst, suc, false, Option, none, some, List, [], ◌∷◌, inl, inr,
  arith, eq_iff,
}
use smallworld_be.Prelude.Table.{get, get-put}
use smallworld_be.Domain.Models.{TripDemand, RideOffer, MatchCandidate}
use smallworld_be.Domain.Errors.{Error, Result, ok, err, Result-cases}
use smallworld_be.World.{World, IdempotencyRecord}
use smallworld_be.World.Calls.{ephemeral_save}
use smallworld_be.Matching.Quiet.{Quiet}
use smallworld_be.Services.Inputs.{CreateTripDemandInput}
use smallworld_be.Services.Sessions.{known_result}
use smallworld_be.Services.Demands.{
  create, create_or_replay, create_new, match_new, run_match, open_demand, new_demand, offer_first,
  offer_best, offered_demand, new_offer, list_candidate_sessions, payload_hash,
}
use smallworld_be.Ledger.Refines.Demands.{
  search_in, search_in-Quiet, list_candidate_sessions-Quiet, run_match_found, run_match_failed,
  run_match_unlisted,
}

-- A demand that stays stored, while keys and surroundings stay as they are.
record Keeps (d : TripDemand) (w w' : World) : Type 0 where
  demand : TripDemand
  stored : get d.id w'.trip_demands ≡ some demand
  same_id : demand.id ≡ d.id
  same_keys : w'.idempotency ≡ w.idempotency
  same_env : w'.env ≡ w.env

Quiet-Keeps :
    (d : TripDemand) (w w' : World) → get d.id w.trip_demands ≡ some d → Quiet w w' → Keeps d w w'
Quiet-Keeps d w w' g q = record {
  demand = d;
  stored = ground (arith, q.same_store);
  same_id = refl;
  same_keys = ground (arith, q.same_store);
  same_env = q.same_env;
}

offer_best-Keeps :
    (d : TripDemand) (best : MatchCandidate) (w : World)
    → get d.id w.trip_demands ≡ some d
    → Keeps d w (offer_best d best w).1
unfolding offer_best new_offer offered_demand ephemeral_save
offer_best-Keeps d best w g = elim (Result-cases (w.quote best)) [
  | inr (x, e) ↦ record {
    demand = d;
    stored = ground arith;
    same_id = refl;
    same_keys = ground arith;
    same_env = ground arith;
  }
  | inl (fare, e) ↦
      let d' = offered_demand d best (w.clock (suc (suc w.ticks))) in
      record {
        demand = d';
        stored = ground (arith, get-put d.id d.id d' w.trip_demands, eq_iff d.id d.id);
        same_id = refl;
        same_keys = ground arith;
        same_env = ground arith;
      }
]

after_search-Keeps :
    (d : TripDemand) (cs : List MatchCandidate) (w w' : World)
    → get d.id w.trip_demands ≡ some d
    → Quiet w w'
    → Keeps d w (offer_first d cs w').1
unfolding offer_first
after_search-Keeps d [] w w' g q = Quiet-Keeps d w w' g q
after_search-Keeps d (c ∷ cs) w w' g q =
    let k = offer_best-Keeps d c w' (ground (arith, q.same_store)) in
    record {
      demand = k.demand;
      stored = k.stored;
      same_id = k.same_id;
      same_keys = k.same_keys ∙ ground (arith, q.same_store);
      same_env = k.same_env ∙ q.same_env;
    }

run_match-Keeps :
    (d : TripDemand) (w : World) → get d.id w.trip_demands ≡ some d → Keeps d w (run_match d w).1
run_match-Keeps d w g = elim (Result-cases (list_candidate_sessions w).0) [
  | inr (x, e) ↦
      rw (run_match_unlisted d w x e) (Quiet-Keeps d w _ g (list_candidate_sessions-Quiet w))
  | inl (ss, e) ↦ elim (Result-cases (search_in d w ss).0) [
    | inr (x, e') ↦
        rw (run_match_failed d w ss x e e') (Quiet-Keeps d w _ g (search_in-Quiet d w ss))
    | inl (cs, e') ↦
        rw (run_match_found d w ss cs e e')
          (after_search-Keeps d cs w (search_in d w ss).1 g (search_in-Quiet d w ss))
  ]
]

-- What a demand that was opened leaves in the tables of demands and keys.
record Remembered (i : CreateTripDemandInput) (w w' : World) (d : TripDemand) : Type 0 where
  stored : get d.id w'.trip_demands ≡ some d
  same_env : w'.env ≡ w.env
  remembered :
      get i.idempotency_key w'.idempotency
      ≡ some (record { resource_id = d.id; payload_hash = payload_hash i w })

open_demand-Remembered :
    (i : CreateTripDemandInput) (w : World) (d : TripDemand)
    → (i.idempotency_key == "") ≡ false
    → (open_demand i w).0 ≡ ok d
    → Remembered i w (open_demand i w).1 d
unfolding open_demand new_demand
open_demand-Remembered i w d k h = ground (
  arith,
  get-put d.id d.id d w.trip_demands,
  get-put i.idempotency_key i.idempotency_key
      (record { resource_id = d.id; payload_hash = payload_hash i w }) w.idempotency,
  eq_iff d.id d.id,
  eq_iff i.idempotency_key i.idempotency_key,
)

-- A demand under a key: the row that the key names, whatever the search has made of it.
record Held (i : CreateTripDemandInput) (w w' : World) (d : TripDemand) : Type 0 where
  demand : TripDemand
  stored : get d.id w'.trip_demands ≡ some demand
  same_id : demand.id ≡ d.id
  same_env : w'.env ≡ w.env
  remembered :
      get i.idempotency_key w'.idempotency
      ≡ some (record { resource_id = d.id; payload_hash = payload_hash i w })

matched :
    (d : TripDemand) (w : World) (x : TripDemand × Option RideOffer)
    → (match_new d w).0 ≡ ok x
    → x.0 ≡ d
unfolding match_new
matched d w x h = ground arith

create_new_opened :
    (i : CreateTripDemandInput) (w : World) (d : TripDemand)
    → (open_demand i w).0 ≡ ok d
    → create_new i w ≡ match_new d (open_demand i w).1
unfolding create_new
create_new_opened i w d e = rw e refl

match_new-Held :
    (i : CreateTripDemandInput) (w : World) (d : TripDemand)
    → Remembered i w (open_demand i w).1 d
    → Held i w (match_new d (open_demand i w).1).1 d
unfolding match_new
match_new-Held i w d r =
    let m = run_match-Keeps d (open_demand i w).1 r.stored in
    record {
      demand = m.demand;
      stored = m.stored;
      same_id = m.same_id;
      same_env = m.same_env ∙ r.same_env;
      remembered = ap (get i.idempotency_key) m.same_keys ∙ r.remembered;
    }

create_new_failed :
    (i : CreateTripDemandInput) (w : World) (z : Error)
    → (open_demand i w).0 ≡ err z
    → (create_new i w).0 ≡ err z
unfolding create_new
create_new_failed i w z e = rw e refl

create_new-Held :
    (i : CreateTripDemandInput) (w : World) (x : TripDemand × Option RideOffer)
    → (i.idempotency_key == "") ≡ false
    → (create_new i w).0 ≡ ok x
    → Held i w (create_new i w).1 x.0
create_new-Held i w x k h = elim (Result-cases (open_demand i w).0) [
  | inr (z, e) ↦ absurd (ground (arith, create_new_failed i w z e))
  | inl (d, e) ↦
      let c = create_new_opened i w d e in
      let same : x.0 ≡ d =
        matched d (open_demand i w).1 x (sym (ap (λ (r : Result _ × World). r.0) c) ∙ h) in
      rw (c, same) (match_new-Held i w d (open_demand-Remembered i w d k e))
]

create_or_replay-Held :
    (known : Option IdempotencyRecord) (i : CreateTripDemandInput) (w : World)
    (x : TripDemand × Option RideOffer)
    → known ≡ none
    → (i.idempotency_key == "") ≡ false
    → (create_or_replay known i w).0 ≡ ok x
    → Held i w (create_or_replay known i w).1 x.0
unfolding create_or_replay
create_or_replay-Held none i w x n k h = create_new-Held i w x k h
create_or_replay-Held (some r) i w x n k h = absurd (ground arith)

create-Held :
    (i : CreateTripDemandInput) (w : World) (x : TripDemand × Option RideOffer)
    → (i.idempotency_key == "") ≡ false
    → get i.idempotency_key w.idempotency ≡ none
    → (create i w).0 ≡ ok x
    → Held i w (create i w).1 x.0
unfolding create
create-Held i w x k n h =
    create_or_replay-Held (known_result i.idempotency_key w) i w x (ground arith) k h

replayed :
    (i : CreateTripDemandInput) (w : World) (d : TripDemand) (r : IdempotencyRecord)
    → (i.idempotency_key == "") ≡ false
    → get i.idempotency_key w.idempotency ≡ some r
    → r.payload_hash ≡ payload_hash i w
    → get r.resource_id w.trip_demands ≡ some d
    → create i w ≡ (ok (d, none), w)
unfolding create create_or_replay
replayed i w d r k g e h = ground (arith, eq_iff r.payload_hash (payload_hash i w))

-- A request for a demand that carries an unused idempotency key and succeeds, with an offer or
-- without, may be sent again: right after it, the same request opens no second demand and makes no
-- second offer, but returns, without an offer, the row that is stored under the id of the demand
-- that the first one returned, and changes nothing at all.
pub create-create :
    (i : CreateTripDemandInput) (w : World) (x : TripDemand × Option RideOffer)
    → (i.idempotency_key == "") ≡ false
    → get i.idempotency_key w.idempotency ≡ none
    → (create i w).0 ≡ ok x
    → (d : TripDemand) × (d.id ≡ x.0.id)
      × (get d.id (create i w).1.trip_demands ≡ some d)
      × (create i (create i w).1 ≡ (ok (d, none), (create i w).1))
create-create i w x k n h =
    let o = create-Held i w x k n h in
    (
      o.demand,
      o.same_id,
      subst (λ j. get j (create i w).1.trip_demands ≡ some o.demand) (sym o.same_id) o.stored,
      replayed i (create i w).1 o.demand _ k o.remembered (ground (arith, o.same_env)) o.stored,
    )
