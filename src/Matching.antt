-- ===== src/Matching.antt =====
-- internal/matching/engine.go: the search for drivers who can serve a demand.
-- `Int64` arithmetic is taken to stay in range. Meters of a search ring are whole numbers well
-- below 2 ^ 53, at which the source's float counter is exact.
pub mod Candidates
pub mod Compare
pub mod Quiet
pub mod Limits
pub mod Sound
pub mod Rings
pub mod Order
use smallworld_be.Prelude.{
  String, Bool, true, false, not, ◌&&◌, ◌||◌, Option, none, some, List, [], ◌∷◌, if◌then◌else◌,
}
use smallworld_be.Prelude.Int.{ℤ, pos, ◌+ℤ◌, ◌-ℤ◌, ◌*ℤ◌, ltb_ℤ, leb_ℤ}
use smallworld_be.Prelude.Sort.{sort}
use smallworld_be.Prelude.Table.{Table, get}
use smallworld_be.Domain.Models.{
  Location, IdentityVerification, DriverSession, TripDemand, MatchCandidate,
}
use smallworld_be.Domain.Errors.{Result, ok, err}
use smallworld_be.Domain.Policies.{can_driver_serve_demand}
use smallworld_be.World.{World, Env, RoutingProvider}
use smallworld_be.World.Exec.{Exec, pure, lift, ◌>>=◌}
use smallworld_be.World.Calls.{now}
use Candidates.{evaluate_candidate, evaluate_walking_candidate}
use Compare.{candidate_before}

-- `isStale` reads the clock only where a limit is set.
unfoldable pub stale : DriverSession → Exec Bool
unfolding ◌-ℤ◌ ◌*ℤ◌
stale session w =
    let limit = w.engine_config.max_driver_session_staleness_seconds in
    let check : Exec Bool = do
      t ← now
      pure (ltb_ℤ session.last_heartbeat_at (t -ℤ limit *ℤ pos 1_000_000_000))
    in if leb_ℤ limit (pos 0) then (ok false, w) else check w

-- What the loop of `FindCandidates` does with a session.
pub data Placement : Type 0 where
  skip : Placement
  exact : MatchCandidate → Placement
  walk : MatchCandidate → Placement

-- if !ok || !domain.CanDriverServeDemand(…) { continue }
unfoldable pub serves : TripDemand → DriverSession → Option IdentityVerification → Bool
serves demand session none = false
serves demand session (some v) = can_driver_serve_demand session v demand

abbrev pub walking_placement : Option MatchCandidate → Placement
walking_placement none = skip
walking_placement (some c) = walk c

abbrev pub try_walking : Env → TripDemand → DriverSession → Option MatchCandidate → Result Placement
try_walking env demand session (some c) = ok (exact c)
try_walking env demand session none = elim (evaluate_walking_candidate env demand session) [
  | ok c ↦ ok (walking_placement c)
  | err e ↦ err e
]

unfoldable pub evaluate : Env → TripDemand → DriverSession → Result Placement
evaluate env demand session =
    elim (evaluate_candidate env demand session demand.requested_origin demand.requested_destination
      (pos 1)) [ ok c ↦ try_walking env demand session c | err e ↦ err e ]

unfoldable pub place : TripDemand → Table IdentityVerification → DriverSession → Exec Placement
unfolding stale serves evaluate
place demand verifications session = do
  is_stale ← stale session
  let served = serves demand session (get session.driver_id verifications)
  λ w. (if is_stale || not served then ok skip else evaluate w.env demand session, w)

abbrev pub Phases : Type 0
Phases = List MatchCandidate × List MatchCandidate

abbrev pub add_placement : Placement → Phases → Phases
add_placement skip p = p
add_placement (exact c) (one, two) = (c ∷ one, two)
add_placement (walk c) (one, two) = (one, c ∷ two)

-- The loop: the candidates of each phase, in the order of the sessions.
unfoldable pub collect : TripDemand → Table IdentityVerification → List DriverSession → Exec Phases
collect demand verifications [] = pure ([], [])
collect demand verifications (s ∷ ss) = do
  p ← place demand verifications s
  rest ← collect demand verifications ss
  pure (add_placement p rest)

abbrev pub choose_phase : Env → Phases → List MatchCandidate
choose_phase env (c ∷ cs, two) = sort (candidate_before env.floats) (c ∷ cs)
choose_phase env ([], two) = sort (candidate_before env.floats) two

unfoldable pub find_candidates :
    TripDemand → Table IdentityVerification → List DriverSession → Exec (List MatchCandidate)
unfolding collect
find_candidates demand verifications sessions = do
  phases ← collect demand verifications sessions
  λ w. (ok (choose_phase w.env phases), w)
