-- ===== src/Services/Accounts.antt =====
-- profile_service.go, vehicle_service.go, verification_service.go and dev_bootstrap_service.go of
-- internal/application/service.
use smallworld_be.Prelude.{String, ◌==◌, true, Option, none, some, List, [], ◌∷◌, if◌then◌else◌}
use smallworld_be.Domain.States.{Gender, VerificationStatus, PreferenceLevel}
use smallworld_be.Domain.Models.{
  Time, User, UserPreferences, IdentityVerification, Vehicle, validate,
}
use smallworld_be.Domain.Errors.{Result, ok, err, user_not_found, invalid_user_preferences}
use smallworld_be.World.Exec.{Exec, pure, fail, require, ◌>>=◌, ◌>>◌}
use smallworld_be.World.Calls.{now, next_id}
use smallworld_be.Memory.{
  find_user_by_auth_subject, save_user, find_verification, save_verification, list_vehicles,
  save_vehicle,
}
use smallworld_be.Services.Inputs.{
  UpsertProfileInput, CreateVehicleInput, DevBootstrapVehicleInput, DevBootstrapInput,
  DevBootstrapResult,
}

-- A new user's rating is the zero value of `float64`, whose bits are all 0.
unfoldable pub new_user : String → String → String → UserPreferences → Time → User
new_user id subject name preferences t = record {
  id = id;
  auth_subject = subject;
  display_name = name;
  average_rating = 0;
  preferences = preferences;
  created_at = t;
}

-- The `switch err` of `UpsertAuthenticated`.
abbrev profile_for : String → UpsertProfileInput → Result User → Exec User
profile_for subject input (ok user) =
    pure (record user { display_name = input.display_name; preferences = input.preferences })
profile_for subject input (err user_not_found) = do
  id ← next_id "user"
  t ← now
  pure (new_user id subject input.display_name input.preferences t)
profile_for subject input (err e) = fail e

unfoldable pub upsert_authenticated : String → UpsertProfileInput → Exec User
unfolding new_user find_user_by_auth_subject
upsert_authenticated subject input = do
  require (validate input.preferences) invalid_user_preferences
  user ← λ w. profile_for subject input (find_user_by_auth_subject subject w).0 w
  save_user user
  pure user

unfoldable pub find_by_auth_subject : String → Exec User
unfolding find_user_by_auth_subject
find_by_auth_subject subject = find_user_by_auth_subject subject

unfoldable pub new_vehicle : String → CreateVehicleInput → Time → Vehicle
new_vehicle id input t = record {
  id = id;
  user_id = input.user_id;
  make = input.make;
  model = input.model;
  color = input.color;
  license_plate = input.license_plate;
  capacity = input.capacity;
  is_active = true;
  created_at = t;
}

unfoldable pub create_vehicle : CreateVehicleInput → Exec Vehicle
unfolding new_vehicle
create_vehicle input = do
  id ← next_id "veh"
  t ← now
  save_vehicle (new_vehicle id input t)
  pure (new_vehicle id input t)

unfoldable pub list_by_user : String → Exec (List Vehicle)
unfolding list_vehicles
list_by_user user_id = list_vehicles user_id

unfoldable pub find_verification_by_user : String → Exec IdentityVerification
find_verification_by_user user_id = find_verification user_id

abbrev pub default_user_preferences : UserPreferences
default_user_preferences = record {
  walk_to_pickup = PreferenceLevel.medium;
  walk_from_dropoff = PreferenceLevel.medium;
  driver_pickup_detour = PreferenceLevel.medium;
}

-- The `switch err` of `Bootstrap`.
abbrev bootstrap_user : DevBootstrapInput → Time → Result User → Exec User
bootstrap_user input t (ok user) =
    pure
      (if input.display_name == "" then user else record user { display_name = input.display_name })
bootstrap_user input t (err user_not_found) =
    let name = if input.display_name == "" then input.auth_subject else input.display_name in
    do id ← next_id "user"; pure (new_user id input.auth_subject name default_user_preferences t)
bootstrap_user input t (err e) = fail e

-- if gender == "" { gender = domain.GenderUnknown }
abbrev gender_or_unknown : Gender → Gender
gender_or_unknown (Gender.unrecognized s) =
    if s == "" then Gender.unknown else Gender.unrecognized s
gender_or_unknown g = g

unfoldable pub dev_verification : User → DevBootstrapInput → Time → IdentityVerification
dev_verification user input t = record {
  user_id = user.id;
  status = VerificationStatus.verified;
  provider = "dev_emulator";
  provider_ref = input.auth_subject;
  verified_gender = gender_or_unknown input.verified_gender;
  verified_at = some t;
  updated_at = t;
}

-- The first vehicle with the plate.
unfoldable pub with_plate : String → List Vehicle → Option Vehicle
with_plate plate [] = none
with_plate plate (v ∷ vs) = if v.license_plate == plate then some v else with_plate plate vs

abbrev vehicle_input : String → DevBootstrapVehicleInput → CreateVehicleInput
vehicle_input user_id i = record {
  user_id = user_id;
  make = i.make;
  model = i.model;
  color = i.color;
  license_plate = i.license_plate;
  capacity = i.capacity;
}

abbrev keep_or_create :
    String → DevBootstrapVehicleInput → Time → Option Vehicle → Exec (Option Vehicle)
keep_or_create user_id i t (some v) = pure (some v)
keep_or_create user_id i t none = do
  id ← next_id "veh"
  save_vehicle (new_vehicle id (vehicle_input user_id i) t)
  pure (some (new_vehicle id (vehicle_input user_id i) t))

abbrev bootstrap_vehicle : String → Option DevBootstrapVehicleInput → Time → Exec (Option Vehicle)
bootstrap_vehicle user_id none t = pure none
bootstrap_vehicle user_id (some i) t = do
  vehicles ← list_vehicles user_id
  keep_or_create user_id i t (with_plate i.license_plate vehicles)

unfoldable pub bootstrap : DevBootstrapInput → Exec DevBootstrapResult
unfolding find_user_by_auth_subject new_user dev_verification list_vehicles with_plate new_vehicle
bootstrap input = do
  t ← now
  user ← λ w. bootstrap_user input t (find_user_by_auth_subject input.auth_subject w).0 w
  save_user user
  save_verification (dev_verification user input t)
  vehicle ← bootstrap_vehicle user.id input.vehicle t
  pure (record { user = user; verification = dev_verification user input t; vehicle = vehicle })
