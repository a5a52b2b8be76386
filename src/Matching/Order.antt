-- ===== src/Matching/Order.antt =====
-- The order of the candidates of internal/matching/engine.go, of which the first gets the offer.
use smallworld_be.Prelude.{◌≡◌, refl, sym, subst, Bool, List, [], ◌∷◌, arith, inl, inr}
use smallworld_be.Prelude.Int.{pos, ltb_ℤ, -ℤ_parts}
use smallworld_be.Prelude.Sort.{
  sort, sort-agree, sort-IsSorted, IsSorted, IsOrder, then_by, then_by-IsOrder, key_order,
}
use smallworld_be.Prelude.Table.{Table}
use smallworld_be.Domain.Models.{IdentityVerification, DriverSession, TripDemand, MatchCandidate}
use smallworld_be.Domain.Errors.{ok, Result-cases}
use smallworld_be.World.{World, Env, Floats}
use smallworld_be.Matching.{find_candidates, collect, choose_phase, Phases}
use smallworld_be.Prelude.Lists.{All, All-map}
use smallworld_be.Matching.Candidates.{overlap_score}
use smallworld_be.Matching.Sound.{Sound, AllSound, collect-AllSound}
use smallworld_be.Matching.Quiet.{collect-Quiet}
use smallworld_be.Matching.Compare.{candidate_before, compare_candidates, walk_meters}

-- The shorter detour, then the earlier pickup, then the shorter walk, then the higher overlap with
-- the driver's route, then the more seats left.
abbrev by_detour : MatchCandidate → MatchCandidate → Bool
by_detour a b = ltb_ℤ a.driver_pickup_detour_meters b.driver_pickup_detour_meters

abbrev by_eta : MatchCandidate → MatchCandidate → Bool
by_eta a b = ltb_ℤ a.driver_pickup_eta_seconds b.driver_pickup_eta_seconds

abbrev by_walk : MatchCandidate → MatchCandidate → Bool
by_walk a b = ltb_ℤ (walk_meters a) (walk_meters b)

abbrev by_overlap : Floats → TripDemand → MatchCandidate → MatchCandidate → Bool
by_overlap floats demand a b =
    floats.less (overlap_score floats b.session demand) (overlap_score floats a.session demand)

abbrev by_seats : MatchCandidate → MatchCandidate → Bool
by_seats a b = ltb_ℤ b.session.remaining_capacity a.session.remaining_capacity

unfoldable pub ranking : Floats → TripDemand → MatchCandidate → MatchCandidate → Bool
unfolding then_by
ranking floats demand =
    then_by by_detour
      (then_by by_eta (then_by by_walk (then_by (by_overlap floats demand) by_seats)))

-- The comparison of the scores of sessions for a demand is an order. A score is one divided by a
-- whole number, which is never NaN.
abbrev pub ScoresOrder : Floats → TripDemand → Type 0
ScoresOrder floats demand = IsOrder (λ (a b : DriverSession).
    floats.less (overlap_score floats a demand) (overlap_score floats b demand))

module _ (floats : Floats) (demand : TripDemand) where
  -- The score that a candidate carries is its session's.
  abbrev Scored : MatchCandidate → Type 0
  Scored c = c.route_overlap_score ≡ overlap_score floats c.session demand

  same_less :
      (a b : MatchCandidate)
      → Scored a
      → Scored b
      → floats.less a.route_overlap_score b.route_overlap_score
        ≡ floats.less
            (overlap_score floats a.session demand)
            (overlap_score floats b.session demand)
  same_less a b p q = rw (p, q) refl

  candidate_before-ranking :
      (a b : MatchCandidate)
      → Scored a
      → Scored b
      → candidate_before floats a b ≡ ranking floats demand a b
  unfolding candidate_before compare_candidates ranking
  candidate_before-ranking a b p q = ground (
    arith,
    same_less a b p q,
    same_less b a q p,
    -ℤ_parts a.driver_pickup_detour_meters b.driver_pickup_detour_meters,
    -ℤ_parts a.driver_pickup_eta_seconds b.driver_pickup_eta_seconds,
    -ℤ_parts (walk_meters a) (walk_meters b),
    -ℤ_parts b.session.remaining_capacity a.session.remaining_capacity,
  )

  overlap_order : ScoresOrder floats demand → IsOrder (by_overlap floats demand)
  overlap_order o = record {
    asym = λ x y h. o.asym y.session x.session h;
    trans = λ x y z h k. o.trans z.session y.session x.session k h;
  }

  seats_order : IsOrder by_seats
  seats_order = record { asym = λ x y h. ground arith; trans = λ x y z h k. ground arith }

  ranking-IsOrder : ScoresOrder floats demand → IsOrder (ranking floats demand)
  unfolding ranking
  ranking-IsOrder o =
      then_by-IsOrder _ _ (key_order (λ (c : MatchCandidate). c.driver_pickup_detour_meters)) (
        then_by-IsOrder _ _ (key_order (λ (c : MatchCandidate). c.driver_pickup_eta_seconds)) (
          then_by-IsOrder _ _ (key_order walk_meters)
            (then_by-IsOrder _ _ (overlap_order o) seats_order)))

  ranked_by_score-IsSorted :
      (cs : List MatchCandidate)
      → ScoresOrder floats demand
      → All Scored cs
      → IsSorted (ranking floats demand) (sort (candidate_before floats) cs)
  ranked_by_score-IsSorted cs o a =
      rw
        (sort-agree Scored (candidate_before floats) (ranking floats demand)
          candidate_before-ranking cs a)
        (sort-IsSorted (ranking floats demand) (ranking-IsOrder o) cs)

-- The engine sorts the candidates of either phase by the ranking.
choose_phase-IsSorted :
    (demand : TripDemand) (verifications : Table IdentityVerification) (env : Env)
    (ss : List DriverSession) (p : Phases)
    → ScoresOrder env.floats demand
    → AllSound demand verifications env ss p
    → IsSorted (ranking env.floats demand) (choose_phase env p)
choose_phase-IsSorted demand verifications env ss ([], two) o a =
    ranked_by_score-IsSorted env.floats demand two o (
      All-map (Sound demand verifications env ss (pos 2)) (Scored env.floats demand) two
        (λ c s. s.candidate.measured.overlap) a.1)
choose_phase-IsSorted demand verifications env ss (c ∷ cs, two) o a =
    ranked_by_score-IsSorted env.floats demand (c ∷ cs) o (
      All-map (Sound demand verifications env ss (pos 1)) (Scored env.floats demand) (c ∷ cs)
        (λ d s. s.candidate.measured.overlap) a.0)

-- The candidates that the engine returns are ranked: by the shorter detour, then the earlier pickup,
-- then the shorter walk, then the greater overlap of the driver's route with the demand, then the
-- more seats left. No candidate outranks one that stands before it, so none outranks the one who
-- gets the offer. The comparison of floats has to be an order on the overlap scores of sessions for
-- the demand; other floats, NaN among them, are not asked of.
pub find_candidates-IsSorted :
    (demand : TripDemand) (verifications : Table IdentityVerification) (ss : List DriverSession)
    (w : World) (cs : List MatchCandidate)
    → ScoresOrder w.floats demand
    → (find_candidates demand verifications ss w).0 ≡ ok cs
    → IsSorted (ranking w.floats demand) cs
unfolding find_candidates
find_candidates-IsSorted demand verifications ss w cs o h =
    elim (Result-cases (collect demand verifications ss w).0) [
      | inr (e, he) ↦ absurd (ground arith)
      | inl (p, hp) ↦
          let same = (collect-Quiet demand verifications ss w).same_env in
          subst (IsSorted (ranking w.floats demand)) (ground arith) (
            subst (λ env. IsSorted (ranking w.floats demand) (choose_phase env p)) (sym same)
              (choose_phase-IsSorted demand verifications w.env ss p o
                (collect-AllSound demand verifications w.env ss w p refl hp)))
    ]
