-- ===== src/Postgres/Moves.antt =====
-- Where internal/infrastructure/postgres and internal/infrastructure/memory say the same in other
-- words: the current session of a driver, the offers that wait for a driver, and the move of an
-- offer that waits.
use mathlib.Core.Path.{fun_ext}
use smallworld_be.Prelude.{
  String, ◌==◌, ◌≡◌, ◌≢◌, ◌↔◌, refl, ap, some, List, [], ◌∷◌, ◌⊎◌, inl, inr, Bool, true, false, not,
  ◌&&◌, none, arith, Option-cases, Bool-cases,
}
use smallworld_be.Prelude.Lists.{
  All, All-map, All-select, All-Among, Among, Among-select, select, select-All, select-Among,
  select-same_All,
}
use smallworld_be.Prelude.Sort.{
  sort, IsOrder, sort-IsSorted, Among-sort, sort-Among, head, first-same,
}
use smallworld_be.Prelude.Table.{get, values}
use smallworld_be.Domain.States.{DriverSessionState, RideOfferState, offer_text}
use smallworld_be.Domain.Models.{Time, DriverSession, RideOffer}
use smallworld_be.Domain.Errors.{
  Error, err, offer_not_found, driver_session_not_found, transition_not_allowed,
}
use smallworld_be.World.{World}
use smallworld_be.Memory
use smallworld_be.Memory.{is_pending, is_ended, first_or}
use smallworld_be.Postgres.{Pool, statement}
use smallworld_be.Postgres.Offers.{transition_pending, is_waiting}
use smallworld_be.Postgres.Sessions.{find_current_session, is_current, current_before, state_rank}

-- Moving an offer has the same outcome in both stores, up to what the column keeps of the time,
-- where the offer is missing or pending. Where it is there and no longer pending, both refuse and
-- change nothing, but the database tells of an offer that is not found, and the memory store of a
-- transition that is not allowed. The statement must not fail.
pub transition_pending-memory :
    (p : Pool) (id : String) (next : RideOfferState) (t : Time) (w : World)
    → p.failure "scan ride offer" w ≡ none
    → (((get id w.ride_offers ≡ none)
          ⊎ ((o : RideOffer) × (get id w.ride_offers ≡ some o)
              × (o.state ≡ RideOfferState.pending)))
        × (transition_pending p id next t w ≡ Memory.transition_pending id next (p.time t) w))
      ⊎ ((o : RideOffer) × (get id w.ride_offers ≡ some o)
          × (o.state ≢ RideOfferState.pending)
          × (transition_pending p id next t w ≡ (err offer_not_found, w))
          × (Memory.transition_pending id next (p.time t) w ≡ (
            err (transition_not_allowed "ride_offer" (offer_text o.state) (offer_text next)),
            w,
          )))
unfolding transition_pending statement is_waiting Memory.transition_pending
transition_pending-memory p id next t w h = elim (Option-cases (get id w.ride_offers)) [
  | inl e ↦ inl (inl e, rw (h, e) refl)
  | inr (o, e) ↦ elim (Bool-cases (is_waiting o.state)) [
    | inl b ↦ inl (inr (o, e, ground arith), ground arith)
    | inr b ↦ inr (o, e, ground arith, ground arith, ground arith)
  ]
]

-- Whether a state is one of those that the code sets.
abbrev pub is_known : DriverSessionState → Bool
is_known (DriverSessionState.unrecognized s) = false
is_known _ = true

abbrev pub KnownStates : World → Type 0
KnownStates w = All (λ s. is_known s.state ≡ true) (values w.driver_sessions)

-- The sessions that a driver may continue, of which both stores look for the first.
abbrev pub current : String → World → List DriverSession
current driver w =
    select (λ (s : DriverSession). s.driver_id == driver && not (is_ended s.state))
      (values w.driver_sessions)

-- No two of them are in the same state since the same time.
abbrev pub Untied : String → World → Type 0
Untied driver w =
    (a b : DriverSession)
    → Among a (current driver w)
    → Among b (current driver w)
    → a.state ≡ b.state
    → a.updated_at ≡ b.updated_at
    → a ≡ b

found_by_database :
    (p : Pool) (driver : String) (w : World)
    → p.failure "scan driver session" w ≡ none
    → KnownStates w
    → find_current_session p driver w
      ≡ (first_or driver_session_not_found (sort Memory.session_before (current driver w)), w)
unfolding find_current_session statement is_current current_before state_rank Memory.session_before
    Memory.session_state_priority
found_by_database p driver w h k =
    rw
      (
        h,
        select-same_All (λ (s : DriverSession). s.driver_id == driver && is_current s.state)
            (λ (s : DriverSession). s.driver_id == driver && not (is_ended s.state))
            (values w.driver_sessions)
            (All-map (λ (s : DriverSession). is_known s.state ≡ true) _ (values w.driver_sessions)
              (λ s e. ground arith) k),
      )
      (ap (λ f. (first_or driver_session_not_found (sort f (current driver w)), w))
        (fun_ext (λ a. fun_ext (λ b. ground arith))))

session_before-IsOrder : IsOrder Memory.session_before
unfolding Memory.session_before
session_before-IsOrder = record { asym = λ x y h. ground arith; trans = λ x y z h k. ground arith }

-- A session that both orders leave equal to another is of the same state and time.
tied :
    (a b : DriverSession)
    → is_known a.state ≡ true
    → is_known b.state ≡ true
    → is_ended a.state ≡ false
    → is_ended b.state ≡ false
    → Memory.session_before a b ≡ false
    → Memory.session_before b a ≡ false
    → (a.state ≡ b.state) × (a.updated_at ≡ b.updated_at)
unfolding Memory.session_before Memory.session_state_priority
tied a b k l e f h i = (ground arith, ground arith)

current-known :
    (driver : String) (w : World) (s : DriverSession)
    → KnownStates w
    → Among s (current driver w)
    → (is_known s.state ≡ true) × (is_ended s.state ≡ false)
current-known driver w s k m = (
  All-Among _ s (current driver w) (select-All _ _ (values w.driver_sessions) k) m,
  let kept = All-Among _ s (current driver w) (All-select _ (values w.driver_sessions)) m in
      ground (arith, kept),
)

-- A current session of one store is one of another that has all its sessions.
carried :
    (driver : String) (w w' : World) (s : DriverSession)
    → ((t : DriverSession)
        → Among t (values w.driver_sessions)
        → Among t (values w'.driver_sessions))
    → Among s (current driver w)
    → Among s (current driver w')
carried driver w w' s f m =
    select-Among _ s (values w'.driver_sessions)
      (All-Among _ s (current driver w) (All-select _ (values w.driver_sessions)) m)
      (f s (Among-select _ s (values w.driver_sessions) m))

untied :
    (driver : String) (w w' : World)
    → ((t : DriverSession)
        → Among t (values w'.driver_sessions)
        → Among t (values w.driver_sessions))
    → KnownStates w
    → Untied driver w
    → (a b : DriverSession) → Among a (sort Memory.session_before (current driver w'))
    → Among b (sort Memory.session_before (current driver w'))
    → Memory.session_before a b ≡ false
    → Memory.session_before b a ≡ false
    → a ≡ b
untied driver w w' f k u a b m n e g =
    let m' = carried driver w' w a f (sort-Among _ a _ m) in
    let n' = carried driver w' w b f (sort-Among _ b _ n) in
    let ka = current-known driver w a k m' in
    let kb = current-known driver w b k n' in
    let same = tied a b ka.0 kb.0 ka.1 kb.1 e g in u a b m' n' same.0 same.1

first_or-head :
    {A : Type 0} (e : Error) (xs ys : List A) → head xs ≡ head ys → first_or e xs ≡ first_or e ys
first_or-head e [] [] h = refl
first_or-head e [] (y ∷ ys) h = absurd (ground arith)
first_or-head e (x ∷ xs) [] h = absurd (ground arith)
first_or-head e (x ∷ xs) (y ∷ ys) h = cc

-- Where every session is in a state that the code sets, and no two that the driver may continue
-- tie in state and time, the database and a memory store that hold the same sessions, whatever
-- the order in which either comes upon them, find the same current session of the driver, or both
-- report that there is none; and neither changes anything. The statement must not fail.
pub find_current_session-memory :
    (p : Pool) (driver : String) (w w' : World)
    → p.failure "scan driver session" w' ≡ none
    → ((s : DriverSession)
        → Among s (values w.driver_sessions) ↔ Among s (values w'.driver_sessions))
    → KnownStates w
    → KnownStates w'
    → Untied driver w
    → ((find_current_session p driver w').0 ≡ (Memory.find_current_session driver w).0)
      × ((find_current_session p driver w').1 ≡ w')
      × ((Memory.find_current_session driver w).1 ≡ w)
unfolding Memory.find_current_session Memory.current_candidates
find_current_session-memory p driver w w' h q k k' u = rw (found_by_database p driver w' h k') (
  first_or-head driver_session_not_found _ _ (
      first-same Memory.session_before (sort Memory.session_before (current driver w'))
        (sort Memory.session_before (current driver w))
        (sort-IsSorted _ session_before-IsOrder (current driver w'))
        (sort-IsSorted _ session_before-IsOrder (current driver w))
        (λ s m. Among-sort _ s _ (carried driver w' w s (λ t. (q t).1) (sort-Among _ s _ m)))
        (λ s m. Among-sort _ s _ (carried driver w w' s (λ t. (q t).0) (sort-Among _ s _ m)))
        (untied driver w w' (λ t. (q t).1) k u)),
  refl,
  refl,
)
