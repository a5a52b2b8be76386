-- ===== src/Matching/Compare.antt =====
-- `compareCandidates` and the order of `sortCandidates` in internal/matching/engine.go.
use smallworld_be.Prelude.{Bool, not, if◌then◌else◌}
use smallworld_be.Prelude.Int.{ℤ, pos, negsuc, ◌+ℤ◌, ◌-ℤ◌, ltb_ℤ, eqb_ℤ}
use smallworld_be.Domain.Models.{MatchCandidate}
use smallworld_be.World.{Floats}

abbrev pub walk_meters : MatchCandidate → ℤ
walk_meters c = c.rider_walk_to_pickup_meters +ℤ c.rider_walk_from_dropoff_meters

unfoldable pub compare_candidates : Floats → MatchCandidate → MatchCandidate → ℤ
compare_candidates floats a b =
    if not (eqb_ℤ a.driver_pickup_detour_meters b.driver_pickup_detour_meters)
    then a.driver_pickup_detour_meters -ℤ b.driver_pickup_detour_meters
    else if not (eqb_ℤ a.driver_pickup_eta_seconds b.driver_pickup_eta_seconds)
    then a.driver_pickup_eta_seconds -ℤ b.driver_pickup_eta_seconds
    else if not (eqb_ℤ (walk_meters a) (walk_meters b))
    then walk_meters a -ℤ walk_meters b
    else if floats.less b.route_overlap_score a.route_overlap_score
    then negsuc 0
    else if floats.less a.route_overlap_score b.route_overlap_score
    then pos 1
    else b.session.remaining_capacity -ℤ a.session.remaining_capacity

unfoldable pub candidate_before : Floats → MatchCandidate → MatchCandidate → Bool
candidate_before floats a b = ltb_ℤ (compare_candidates floats a b) (pos 0)
