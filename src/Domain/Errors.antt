-- ===== src/Domain/Errors.antt =====
-- internal/domain/errors.go, the errors that other files make, and a result that may be an error.
use Prim.Native.String.{◌++◌}
use smallworld_be.Prelude.{String, ◌≡◌, refl, ◌⊎◌, inl, inr}

pub data Error : Type 0 where
  unauthorized user_not_found driver_session_not_found verification_required : Error
  vehicle_required demand_not_found no_candidate_found offer_not_found booking_not_found : Error
  driver_tracking_unavailable invalid_user_preferences capacity_exceeded : Error
  idempotency_conflict women_only_requires_verified_female_rider : Error
  -- errors.New("vehicle not found") and errors.New("idempotency key not found") of the stores
  vehicle_not_found idempotency_key_not_found : Error
  -- fmt.Errorf("%s transition %s -> %s is not allowed", entity, from, to)
  transition_not_allowed : String → String → String → Error
  -- what a provider outside the program reports
  external : String → Error

pub data Result {ℓ} (A : Type ℓ) : Type ℓ where
  ok : A → Result A
  err : Error → Result A

pub Result-cases {ℓ} :
    {A : Type ℓ} (r : Result A) → ((a : A) × (r ≡ ok a)) ⊎ ((e : Error) × (r ≡ err e))
Result-cases (ok a) = inl (a, refl)
Result-cases (err e) = inr (e, refl)

-- fmt.Errorf(what + ": %w", err): errors.Is still finds an error of the program in it.
abbrev pub wrap : String → Error → Error
wrap what (external text) = external (what ++ (": " ++ text))
wrap what e = e
