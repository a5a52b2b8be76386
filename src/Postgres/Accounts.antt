-- ===== src/Postgres/Accounts.antt =====
-- Users, Verifications, Vehicles, Reviews and Idempotency of
-- internal/infrastructure/postgres/repositories.go.
use smallworld_be.Prelude.{String, ◌==◌, Bool, Option, none, some, List}
use smallworld_be.Prelude.Int.{ltb_ℤ}
use smallworld_be.Prelude.Lists.{select}
use smallworld_be.Prelude.Sort.{sort}
use smallworld_be.Prelude.Table.{get, values}
use smallworld_be.Domain.Models.{Time, User, IdentityVerification, Vehicle, Review}
use smallworld_be.Domain.Errors.{
  ok, user_not_found, verification_required, vehicle_not_found, demand_not_found,
}
use smallworld_be.World.{IdempotencyRecord}
use smallworld_be.World.Exec.{Exec, or_fail}
use smallworld_be.Memory.{set_store, first_or}
use smallworld_be.Postgres.{Pool, statement, upsert}

unfoldable pub user_row : Pool → User → User
user_row p u = record u {
  average_rating = p.rating u.average_rating;
  created_at = p.time u.created_at;
}

unfoldable pub save_user : Pool → User → Exec (Unit {0})
unfolding user_row upsert statement
save_user p u = statement p "save user" λ w.
    set_store
      (record w.store {
        users =
            upsert (λ old new. record new { created_at = old.created_at }) u.id (user_row p u)
              w.users;
      })
      w

unfoldable pub find_user : Pool → String → Exec User
unfolding statement
find_user p id = statement p "find user by id" λ w. (or_fail (get id w.users) user_not_found, w)

-- The column is UNIQUE, so one row matches at most.
unfoldable pub find_user_by_auth_subject : Pool → String → Exec User
unfolding statement
find_user_by_auth_subject p subject =
    statement p "find user by auth subject"
      λ w. (first_or user_not_found (select (λ u. u.auth_subject == subject) (values w.users)), w)

abbrev kept_time : Pool → Option Time → Option Time
kept_time p none = none
kept_time p (some t) = some (p.time t)

unfoldable pub verification_row : Pool → IdentityVerification → IdentityVerification
verification_row p v = record v {
  verified_at = kept_time p v.verified_at;
  updated_at = p.time v.updated_at;
}

unfoldable pub save_verification : Pool → IdentityVerification → Exec (Unit {0})
unfolding verification_row upsert statement
save_verification p v = statement p "save verification" λ w.
    set_store
      (record w.store {
        verifications = upsert (λ old new. new) v.user_id (verification_row p v) w.verifications;
      })
      w

unfoldable pub find_verification : Pool → String → Exec IdentityVerification
unfolding statement
find_verification p user_id =
    statement p "find verification by user id"
      λ w. (or_fail (get user_id w.verifications) verification_required, w)

unfoldable pub vehicle_row : Pool → Vehicle → Vehicle
vehicle_row p v = record v { created_at = p.time v.created_at }

unfoldable pub save_vehicle : Pool → Vehicle → Exec (Unit {0})
unfolding vehicle_row upsert statement
save_vehicle p v = statement p "save vehicle" λ w.
    set_store
      (record w.store {
        vehicles =
            upsert (λ old new. record new { created_at = old.created_at }) v.id (vehicle_row p v)
              w.vehicles;
      })
      w

-- ORDER BY created_at ASC
unfoldable pub vehicle_before : Vehicle → Vehicle → Bool
vehicle_before a b = ltb_ℤ a.created_at b.created_at

unfoldable pub list_vehicles : Pool → String → Exec (List Vehicle)
unfolding vehicle_before sort statement
list_vehicles p user_id =
    statement p "list vehicles by user id"
      λ w. (ok (sort vehicle_before (select (λ v. v.user_id == user_id) (values w.vehicles))), w)

unfoldable pub find_vehicle : Pool → String → Exec Vehicle
unfolding statement
find_vehicle p id =
    statement p "find vehicle by id" λ w. (or_fail (get id w.vehicles) vehicle_not_found, w)

unfoldable pub review_row : Pool → Review → Review
review_row p r = record r { created_at = p.time r.created_at }

unfoldable pub save_review : Pool → Review → Exec (Unit {0})
unfolding review_row upsert statement
save_review p r = statement p "save review" λ w.
    set_store
      (record w.store {
        reviews =
            upsert (λ old new. record new { created_at = old.created_at }) r.id (review_row p r)
              w.reviews;
      })
      w

-- ORDER BY created_at DESC
unfoldable pub review_before : Review → Review → Bool
review_before a b = ltb_ℤ b.created_at a.created_at

unfoldable pub list_reviews : Pool → String → Exec (List Review)
unfolding review_before sort statement
list_reviews p subject =
    statement p "list reviews by subject id"
      λ w. (ok (sort review_before (select (λ r. r.subject_id == subject) (values w.reviews))), w)

-- The column created_at of this table is never read.
unfoldable pub save_result : Pool → String → String → String → Exec (Unit {0})
unfolding upsert statement
save_result p key resource_id payload_hash = statement p "save idempotency result" λ w.
    set_store
      (record w.store {
        idempotency =
            upsert (λ old new. new) key
              (record { resource_id = resource_id; payload_hash = payload_hash }) w.idempotency;
      })
      w

-- A key that is not there gives the error of a demand that is not there.
unfoldable pub find_result : Pool → String → Exec IdempotencyRecord
unfolding statement
find_result p key =
    statement p "find idempotency result" λ w. (or_fail (get key w.idempotency) demand_not_found, w)
