-- ===== src/Matching/Sound.antt =====
-- `FindCandidates` of internal/matching/engine.go: what each candidate is, and how they are ordered.
use smallworld_be.Prelude.{◌≡◌, refl, ◌⊎◌, inl, inr, true, arith, List, [], ◌∷◌, subst, ◌∙◌}
use smallworld_be.Prelude.Int.{ℤ, pos}
use smallworld_be.Prelude.Lists.{All, Among}
use smallworld_be.Prelude.Table.{Table, get}
use smallworld_be.Domain.Models.{DriverSession, TripDemand, IdentityVerification, MatchCandidate}
use smallworld_be.Domain.Errors.{ok, Result-cases}
use smallworld_be.World.{World, Env}
use smallworld_be.Prelude.Sort.{sort-All}
use smallworld_be.Matching.{
  Placement, skip, exact, walk, Phases, add_placement, evaluate, stale, serves, place, collect,
  choose_phase, find_candidates,
}
use smallworld_be.Matching.Limits.{CandidateOf, AllResult, Placed, evaluate-Placed}
use smallworld_be.Matching.Quiet.{place-Quiet, collect-Quiet}

module _ (demand : TripDemand) (verifications : Table IdentityVerification) where
  -- What a candidate of a phase is: of a session that can serve the demand, within all limits.
  pub record Sound (env : Env) (sessions : List DriverSession) (phase : ℤ) (c : MatchCandidate)
      : Type 0 where
    pub candidate : CandidateOf env demand c.session phase c
    pub served : serves demand c.session (get c.session.driver_id verifications) ≡ true
    pub among : Among c.session sessions

  place-value :
      (s : DriverSession) (w : World)
      → ((place demand verifications s w).0 ≡ ok skip)
        ⊎ ((serves demand s (get s.driver_id verifications) ≡ true)
            × ((place demand verifications s w).0 ≡ evaluate w.env demand s))
  unfolding place stale
  place-value s w = ground arith

  module _ (env : Env) where
    -- The candidates of both phases.
    abbrev pub AllSound : List DriverSession → Phases → Type 0
    AllSound ss (one, two) = All (Sound env ss (pos 1)) one × All (Sound env ss (pos 2)) two

    wider :
        (s : DriverSession) (ss : List DriverSession) (phase : ℤ) (cs : List MatchCandidate)
        → All (Sound env ss phase) cs
        → All (Sound env (s ∷ ss) phase) cs
    wider s ss phase [] a = tt
    wider s ss phase (c ∷ cs) a = (
      record { candidate = a.0.candidate; served = a.0.served; among = inr a.0.among },
      wider s ss phase cs a.1,
    )

    head_Sound :
        (s : DriverSession) (ss : List DriverSession) (phase : ℤ) (c : MatchCandidate)
        → serves demand s (get s.driver_id verifications) ≡ true
        → CandidateOf env demand s phase c
        → Sound env (s ∷ ss) phase c
    head_Sound s ss phase c v k = record {
      candidate = record {
        limits = k.limits;
        points = k.points;
        measured = k.measured;
        same_session = refl;
        same_phase = k.same_phase;
      };
      served = rw k.same_session v;
      among = inl k.same_session;
    }

    add_placement-AllSound :
        (s : DriverSession) (ss : List DriverSession) (p : Placement) (q : Phases)
        → (p ≡ skip)
          ⊎ ((serves demand s (get s.driver_id verifications) ≡ true) × Placed env demand s p)
        → AllSound ss q
        → AllSound (s ∷ ss) (add_placement p q)
    add_placement-AllSound s ss skip (one, two) h a =
        (wider s ss (pos 1) one a.0, wider s ss (pos 2) two a.1)
    add_placement-AllSound s ss (exact c) (one, two) (inr (v, k)) a =
        ((head_Sound s ss (pos 1) c v k, wider s ss (pos 1) one a.0), wider s ss (pos 2) two a.1)
    add_placement-AllSound s ss (walk c) (one, two) (inr (v, k)) a =
        (wider s ss (pos 1) one a.0, (head_Sound s ss (pos 2) c v k, wider s ss (pos 2) two a.1))
    add_placement-AllSound s ss (exact c) (one, two) (inl e) a = absurd (ground arith)
    add_placement-AllSound s ss (walk c) (one, two) (inl e) a = absurd (ground arith)

    place-Placed :
        (s : DriverSession) (w : World) (p : Placement)
        → w.env ≡ env
        → (place demand verifications s w).0 ≡ ok p
        → (p ≡ skip)
          ⊎ ((serves demand s (get s.driver_id verifications) ≡ true) × Placed env demand s p)
    place-Placed s w p e h = elim (place-value s w) [
      | inl k ↦ inl (ground arith)
      | inr (v, k) ↦
          let is_placed : evaluate env demand s ≡ ok p = ground (arith, e) in
          inr (v, subst (AllResult (Placed env demand s)) is_placed (evaluate-Placed env demand s))
    ]

    pub collect-AllSound :
        (ss : List DriverSession) (w : World) (q : Phases)
        → w.env ≡ env
        → (collect demand verifications ss w).0 ≡ ok q
        → AllSound ss q
    unfolding collect
    collect-AllSound [] w q e h =
        let is_empty : ([], []) ≡ q = ground arith in subst (AllSound []) is_empty (tt, tt)
    collect-AllSound (s ∷ ss) w q e h =
        let w' = (place demand verifications s w).1 in
        let e' : w'.env ≡ env = (place-Quiet demand verifications s w).same_env ∙ e in
        elim (Result-cases (place demand verifications s w).0) [
          | inr (x, k) ↦ absurd (ground arith)
          | inl (p, k) ↦ elim (Result-cases (collect demand verifications ss w').0) [
            | inr (x, l) ↦ absurd (ground arith)
            | inl (r, l) ↦
                let is_both : add_placement p r ≡ q = ground arith in
                subst (AllSound (s ∷ ss)) is_both (
                  add_placement-AllSound s ss p r (place-Placed s w p e k)
                    (collect-AllSound ss w' r e' l))
          ]
        ]

    choose_phase-Sound :
        (ss : List DriverSession) (q : Phases)
        → AllSound ss q
        → All (Sound env ss (pos 1)) (choose_phase env q)
          ⊎ All (Sound env ss (pos 2)) (choose_phase env q)
    choose_phase-Sound ss (c ∷ cs, two) a = inl (sort-All _ _ (c ∷ cs) a.0)
    choose_phase-Sound ss ([], two) a = inr (sort-All _ _ two a.1)

  -- Every candidate that the search returns is for one of the sessions asked about, whose driver has
  -- a verification and may serve the demand, and keeps the walking limits of the rider, the detour
  -- limit of the driver and the time by which the rider can be at the pickup point, by the times and
  -- distances that the routing provider answers for its points. Either all of the candidates are of
  -- the first phase and at the rider's own points, or all are of the second, at pairs of points
  -- that the search tries around the two.
  pub find_candidates-Sound :
      (sessions : List DriverSession) (w : World) (cs : List MatchCandidate)
      → (find_candidates demand verifications sessions w).0 ≡ ok cs
      → All (Sound w.env sessions (pos 1)) cs ⊎ All (Sound w.env sessions (pos 2)) cs
  unfolding find_candidates
  find_candidates-Sound sessions w cs h =
      elim (Result-cases (collect demand verifications sessions w).0) [
        | inr (e, k) ↦ absurd (ground arith)
        | inl (q, k) ↦
            let w' = (collect demand verifications sessions w).1 in
            let e : w'.env ≡ w.env = (collect-Quiet demand verifications sessions w).same_env in
            let is_chosen : choose_phase w.env q ≡ cs = ground (arith, e) in
            subst
              (λ (xs : List MatchCandidate).
                All (Sound w.env sessions (pos 1)) xs ⊎ All (Sound w.env sessions (pos 2)) xs)
              is_chosen
              (choose_phase-Sound w.env sessions q (collect-AllSound w.env sessions w q refl k))
      ]
