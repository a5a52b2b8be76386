-- ===== src/Matching/Quiet.antt =====
-- The search reads the clock and asks outside; it writes no row and draws no id.
use smallworld_be.Prelude.{◌≡◌, refl, List, [], ◌∷◌, arith, ◌∙◌}
use smallworld_be.Prelude.Table.{Table}
use smallworld_be.Domain.Models.{IdentityVerification, DriverSession, TripDemand}
use smallworld_be.Domain.Errors.{Result, ok, err}
use smallworld_be.World.{World}
use smallworld_be.World.Exec.{continue}
use smallworld_be.Matching.{stale, place, collect, find_candidates}

pub record Quiet (w w' : World) : Type 0 where
  pub same_store : w'.store ≡ w.store
  pub same_env : w'.env ≡ w.env
  pub same_seq : w'.seq ≡ w.seq

pub Quiet-trans : {u v w : World} → Quiet u v → Quiet v w → Quiet u w
Quiet-trans p q = record {
  same_store = q.same_store ∙ p.same_store;
  same_env = q.same_env ∙ p.same_env;
  same_seq = q.same_seq ∙ p.same_seq;
}

Quiet-refl : {w : World} → Quiet w w
Quiet-refl = record { same_store = refl; same_env = refl; same_seq = refl }

continue-Quiet :
    {A B : Type 0} {w w' : World} (r : Result A) (f : A → World → Result B × World)
    → Quiet w w'
    → ((a : A) → Quiet w' (f a w').1)
    → Quiet w (continue r f w').1
continue-Quiet (ok a) f q h = Quiet-trans q (h a)
continue-Quiet (err e) f q h = q

module _ (demand : TripDemand) (verifications : Table IdentityVerification) where
  pub place-Quiet : (s : DriverSession) (w : World) → Quiet w (place demand verifications s w).1
  unfolding place stale
  place-Quiet s w = ground arith

  pub collect-Quiet :
      (ss : List DriverSession) (w : World) → Quiet w (collect demand verifications ss w).1
  unfolding collect
  collect-Quiet [] w = Quiet-refl
  collect-Quiet (s ∷ ss) w =
      continue-Quiet (place demand verifications s w).0 _ (place-Quiet s w) λ p.
        continue-Quiet (collect demand verifications ss (place demand verifications s w).1).0 _
          (collect-Quiet ss (place demand verifications s w).1) (λ rest. Quiet-refl)

  pub find_candidates-Quiet :
      (ss : List DriverSession) (w : World) → Quiet w (find_candidates demand verifications ss w).1
  unfolding find_candidates
  find_candidates-Quiet ss w = ground (arith, collect-Quiet ss w)
