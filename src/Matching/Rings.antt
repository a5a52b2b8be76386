-- ===== src/Matching/Rings.antt =====
-- Which points `radialCandidates` of internal/matching/engine.go tries around a point.
use mathlib.Core.Logic.{◌↔◌}
use smallworld_be.Prelude.{
  ℕ, zero, suc, ◌+◌, ◌*◌, ◌<◌, ◌≤◌, ◌≡◌, sym, subst, ◌⊎◌, inl, inr, arith, List, [], ◌∷◌, ◌++◌, leb,
  Bool-cases, true, false,
}
use smallworld_be.Prelude.Int.{ℤ, pos, negsuc, pos_part, ◌≤ℤ◌, leb_ℤ}
use smallworld_be.Prelude.Lists.{Among}
use smallworld_be.Domain.Models.{Float64, Location}
use smallworld_be.World.{Floats}
use smallworld_be.Matching.Candidates.{rings, ring, radial_candidates}

Among-append :
    {A : Type 0} (x : A) (xs ys : List A) → Among x (xs ++ ys) ↔ (Among x xs ⊎ Among x ys)
Among-append x [] ys = (λ m. inr m, λ m. elim m [ inl n ↦ absurd n | inr n ↦ n ])
Among-append x (y ∷ xs) ys = (
  λ m. elim m [
    | inl e ↦ inl (inl e)
    | inr n ↦ elim ((Among-append x xs ys).0 n) [ inl k ↦ inl (inr k) | inr k ↦ inr k ]
  ],
  λ m. elim m [
    | inl (inl e) ↦ inl e
    | inl (inr n) ↦ inr ((Among-append x xs ys).1 (inl n))
    | inr n ↦ inr ((Among-append x xs ys).1 (inr n))
  ],
)

module _ (f : Floats) (center : Location) where
  -- As many degrees as a number of meters makes, at 111320 meters for a degree.
  abbrev pub degrees : ℕ → Float64
  degrees meters = f.divide (f.of_int (pos meters)) (f.of_int (pos 111_320))

  -- A point that lies a number of meters to the north, the south, the east or the west.
  abbrev pub LiesAt : ℕ → Location → Type 0
  LiesAt meters p =
      (p ≡ record { lat = f.add center.lat (degrees meters); lng = center.lng })
      ⊎ (p ≡ record { lat = f.subtract center.lat (degrees meters); lng = center.lng })
      ⊎ (p ≡ record { lat = center.lat; lng = f.add center.lng (degrees meters) })
      ⊎ (p ≡ record { lat = center.lat; lng = f.subtract center.lng (degrees meters) })

  ring-LiesAt : (meters : ℕ) (p : Location) → Among p (ring f center meters) ↔ LiesAt meters p
  unfolding ring
  ring-LiesAt meters p = (
    λ m. elim m [
      | inl e ↦ inl e
      | inr (inl e) ↦ inr (inl e)
      | inr (inr (inl e)) ↦ inr (inr (inl e))
      | inr (inr (inr (inl e))) ↦ inr (inr (inr e))
      | inr (inr (inr (inr e))) ↦ absurd e
    ],
    λ m. elim m [
      | inl e ↦ inl e
      | inr (inl e) ↦ inr (inl e)
      | inr (inr (inl e)) ↦ inr (inr (inl e))
      | inr (inr (inr e)) ↦ inr (inr (inr (inl e)))
    ],
  )

  module _ (step limit : ℕ) (p : Location) where
    -- A point at one of the distances from `meters` on, a step apart, up to the limit.
    abbrev OnRing : ℕ → Type 0
    OnRing meters =
        (k : ℕ) × (meters + k * step ≤ limit) × Among p (ring f center (meters + k * step))

    later : (meters : ℕ) → OnRing (meters + step) → OnRing meters
    later meters (k, h, m) =
        let e : meters + step + k * step ≡ meters + suc k * step = omega arith in
        (suc k, subst (λ n. n ≤ limit) e h, subst (λ n. Among p (ring f center n)) e m)

    sooner : (meters : ℕ) → OnRing meters → Among p (ring f center meters) ⊎ OnRing (meters + step)
    sooner meters (zero, h, m) =
        let e : meters + zero * step ≡ meters = omega arith in
        inl (subst (λ n. Among p (ring f center n)) e m)
    sooner meters (suc k, h, m) =
        let e : meters + suc k * step ≡ meters + step + k * step = omega arith in
        inr (k, subst (λ n. n ≤ limit) e h, subst (λ n. Among p (ring f center n)) e m)

    on_first : (meters : ℕ) → meters ≤ limit → Among p (ring f center meters) → OnRing meters
    on_first meters h m =
        let e : meters ≡ meters + zero * step = omega arith in
        (zero, subst (λ n. n ≤ limit) e h, subst (λ n. Among p (ring f center n)) e m)

    near_enough : (meters : ℕ) → OnRing meters → meters ≤ limit
    near_enough meters (k, h, m) = omega arith

    rings-OnRing :
        (fuel meters : ℕ)
        → 0 < step
        → limit < meters + fuel
        → Among p (rings f center step limit fuel meters) ↔ OnRing meters
    unfolding rings
    rings-OnRing zero meters s h =
        (λ m. absurd m, λ o. let b = near_enough meters o in absurd (omega arith))
    rings-OnRing (suc fuel) meters s h = elim (Bool-cases (leb meters limit)) [
      | inr e ↦ rw e (λ m. absurd m, λ o. let b = near_enough meters o in absurd (ground arith))
      | inl e ↦
          let rest = rings-OnRing fuel (meters + step) s (omega arith) in
          let split =
            Among-append p (ring f center meters)
              (rings f center step limit fuel (meters + step)) in
          rw e (
            λ m. elim (split.0 m) [
              | inl n ↦ on_first meters (ground arith) n
              | inr n ↦ later meters (rest.0 n)
            ],
            λ o. elim (sooner meters o) [
              | inl n ↦ split.1 (inl n)
              | inr n ↦ split.1 (inr (rest.1 n))
            ],
          )
    ]

too_far :
    (max_meters : ℤ) (m : ℕ) → 0 < m → leb_ℤ max_meters (pos 0) ≡ true → pos m ≤ℤ max_meters → ⊥
too_far (pos n) m s e h = ground arith
too_far (negsuc n) m s e h = ground arith

within_pos :
    (max_meters : ℤ) (m : ℕ)
    → leb_ℤ max_meters (pos 0) ≡ false
    → (m ≤ pos_part max_meters) ↔ (pos m ≤ℤ max_meters)
within_pos (pos n) m e = (λ h. omega arith, λ h. omega arith)
within_pos (negsuc n) m e = (λ h. absurd (ground arith), λ h. absurd (ground arith))

-- The search around a point ends, and with a step of a meter or more it tries exactly the point
-- itself and, at each multiple of the step from one step up to the limit, the limit included, the
-- four points that lie that far to the north, the south, the east and the west; with a limit that
-- is zero or negative, the point alone. Distances are whole meters.
pub radial_candidates-points :
    (f : Floats) (center : Location) (step : ℕ) (max_meters : ℤ) (p : Location)
    → 0 < step
    → Among p (radial_candidates f center step max_meters) ↔ (
        (p ≡ center)
        ⊎ ((k : ℕ) × (pos (suc k * step) ≤ℤ max_meters) × LiesAt f center (suc k * step) p))
unfolding radial_candidates
radial_candidates-points f center step max_meters p s =
    let limit = pos_part max_meters in
    let far : (k : ℕ) → step + k * step ≡ suc k * step = λ k. omega arith in
    let r = rings-OnRing f center step limit p limit step s (omega arith) in
    elim (Bool-cases (leb_ℤ max_meters (pos 0))) [
      | inl e ↦ rw e (
        λ m. elim m [ inl q ↦ inl q | inr n ↦ absurd n ],
        λ m. elim m [
          | inl q ↦ inl q
          | inr (k, h, n) ↦ absurd (too_far max_meters (suc k * step) (omega arith) e h)
        ],
      )
      | inr e ↦ rw e (
        λ m. elim m [
          | inl q ↦ inl q
          | inr n ↦
              let o = r.0 n in
              inr (
                o.0,
                (within_pos max_meters (suc o.0 * step) e).0 (subst (λ d. d ≤ limit) (far o.0) o.1),
                (ring-LiesAt f center (suc o.0 * step) p).0
                    (subst (λ d. Among p (ring f center d)) (far o.0) o.2),
              )
        ],
        λ m. elim m [
          | inl q ↦ inl q
          | inr (k, h, n) ↦ inr (
              r.1 (
                k,
                subst (λ d. d ≤ limit) (sym (far k)) ((within_pos max_meters (suc k * step) e).1 h),
                subst (λ d. Among p (ring f center d)) (sym (far k))
                    ((ring-LiesAt f center (suc k * step) p).1 n),
              ))
        ],
      )
    ]
