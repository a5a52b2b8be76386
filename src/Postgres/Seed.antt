-- ===== src/Postgres/Seed.antt =====
-- internal/infrastructure/postgres/seed.go: the users of a demonstration.
use smallworld_be.Prelude.{
  String, ◌==◌, ◌≡◌, refl, true, false, Option, Option-cases, inl, inr, none, some, [], ◌∷◌, arith,
}
use smallworld_be.Prelude.Int.{pos}
use smallworld_be.Prelude.Table.{Table, get, get-put}
use smallworld_be.Domain.States.{Gender, VerificationStatus, PreferenceLevel}
use smallworld_be.Domain.Models.{Time, User, IdentityVerification, Vehicle}
use smallworld_be.Domain.Errors.{ok}
use smallworld_be.Domain.Policies.{rider_eligible, driver_eligible}
use smallworld_be.World.{World}
use smallworld_be.World.Exec.{Exec, ◌>>=◌, ◌>>◌}
use smallworld_be.World.Calls.{now}
use smallworld_be.Postgres.{Pool, statement, updated, upsert}
use smallworld_be.Postgres.Saves.{upsert-get}
use smallworld_be.Postgres.Accounts.{
  save_user, save_verification, save_vehicle, find_verification, find_vehicle, verification_row,
  vehicle_row,
}

-- The rating is left at the zero value, whose bits are all 0.
abbrev demo_user : String → String → String → PreferenceLevel → Time → User
demo_user id subject name detour t = record {
  id = id;
  auth_subject = subject;
  display_name = name;
  average_rating = 0;
  preferences = record {
    walk_to_pickup = PreferenceLevel.big;
    walk_from_dropoff = PreferenceLevel.big;
    driver_pickup_detour = detour;
  };
  created_at = t;
}

abbrev demo_verification : String → String → Time → IdentityVerification
demo_verification user_id reference t = record {
  user_id = user_id;
  status = VerificationStatus.verified;
  provider = "demo";
  provider_ref = reference;
  verified_gender = Gender.female;
  verified_at = none;
  updated_at = t;
}

abbrev demo_vehicle : Time → Vehicle
demo_vehicle t = record {
  id = "veh_1";
  user_id = "user_driver_1";
  make = "Toyota";
  model = "Yaris";
  color = "Blue";
  license_plate = "SW-001";
  capacity = pos 3;
  is_active = true;
  created_at = t;
}

updated_new : {A : Type 0} (o : Option A) (x : A) → updated (λ old new. new) o x ≡ x
updated_new none x = refl
updated_new (some old) x = refl

upsert-other :
    (k j : String)
    → (k == j) ≡ false
    → {A : Type 0} (keep : A → A → A) (x : A) (t : Table A) → get j (upsert keep k x t) ≡ get j t
unfolding upsert
upsert-other k j e keep x t = rw (get-put k j (updated keep (get k t) x) t, e) refl

unfoldable pub seed_demo_data : Pool → Exec (Unit {0})
unfolding save_user save_verification save_vehicle
seed_demo_data p = do
  t ← now
  save_user p (demo_user "user_driver_1" "driver_1" "Alice Driver" PreferenceLevel.big t)
  save_user p (demo_user "user_rider_1" "rider_1" "Rita Rider" PreferenceLevel.low t)
  save_verification p (demo_verification "user_driver_1" "drv_1" t)
  save_verification p (demo_verification "user_rider_1" "rdr_1" t)
  save_vehicle p (demo_vehicle t)

module _ (p : Pool) (w : World) (h : (name : String) (u : World) → p.failure name u ≡ none) where
  seeded-verifications :
      (seed_demo_data p w).1.verifications
      ≡ upsert
          (λ old new. new)
          "user_rider_1"
          (verification_row p (demo_verification "user_rider_1" "rdr_1" (w.clock w.ticks)))
          (upsert
            (λ old new. new)
            "user_driver_1"
            (verification_row p (demo_verification "user_driver_1" "drv_1" (w.clock w.ticks)))
            w.verifications)
  unfolding seed_demo_data save_user save_verification save_vehicle statement
  seeded-verifications = simp (h)

  seeded-vehicles :
      (seed_demo_data p w).1.vehicles
      ≡ upsert
          (λ old new. record new { created_at = old.created_at })
          "veh_1"
          (vehicle_row p (demo_vehicle (w.clock w.ticks)))
          w.vehicles
  unfolding seed_demo_data save_user save_verification save_vehicle statement
  seeded-vehicles = simp (h)

  rider-found :
      (find_verification p "user_rider_1" (seed_demo_data p w).1).0
      ≡ ok (verification_row p (demo_verification "user_rider_1" "rdr_1" (w.clock w.ticks)))
  unfolding find_verification statement
  rider-found = rw (h, seeded-verifications, upsert-get, updated_new) refl

  driver-found :
      (find_verification p "user_driver_1" (seed_demo_data p w).1).0
      ≡ ok (verification_row p (demo_verification "user_driver_1" "drv_1" (w.clock w.ticks)))
  unfolding find_verification statement
  driver-found =
      rw
        (
          h,
          seeded-verifications,
          upsert-other "user_rider_1" "user_driver_1" refl,
          upsert-get,
          updated_new,
        )
        refl

  vehicle-found :
      (c : Vehicle) × ((find_vehicle p "veh_1" (seed_demo_data p w).1).0 ≡ ok c)
      × (c.user_id ≡ "user_driver_1")
      × (c.is_active ≡ true)
      × (c.capacity ≡ pos 3)
  unfolding find_vehicle statement vehicle_row
  vehicle-found = elim (Option-cases (get "veh_1" w.vehicles)) [
    | inl e ↦ rw (h, seeded-vehicles, upsert-get, e) (_, refl, refl, refl, refl)
    | inr (old, e) ↦ rw (h, seeded-vehicles, upsert-get, e) (_, refl, refl, refl, refl)
  ]

-- After seeding, whatever was stored before, both demonstration users are found verified, so that
-- the rider may open demands, and the driver may start sessions with the vehicle that is found. No
-- statement may fail.
pub seed_demo_data-eligible :
    (p : Pool) (w : World)
    → ((name : String) (u : World) → p.failure name u ≡ none)
    → (v d : IdentityVerification) × (c : Vehicle) × ((find_verification p "user_rider_1"
          (seed_demo_data p w).1).0
        ≡ ok v)
      × ((find_verification p "user_driver_1" (seed_demo_data p w).1).0 ≡ ok d)
      × ((find_vehicle p "veh_1" (seed_demo_data p w).1).0 ≡ ok c)
      × (rider_eligible v ≡ true)
      × (c.user_id ≡ "user_driver_1")
      × (driver_eligible d (c ∷ []) ≡ true)
unfolding rider_eligible driver_eligible verification_row
seed_demo_data-eligible p w h =
    let (c, f, u, a, n) = vehicle-found p w h in
    (_, _, c, rider-found p w h, driver-found p w h, f, refl, u, ground (arith, a, n))
