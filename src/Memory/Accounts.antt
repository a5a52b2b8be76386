-- ===== src/Memory/Accounts.antt =====
-- Users, verifications, vehicles, reviews and idempotency keys of
-- internal/infrastructure/memory/repositories.go.
use smallworld_be.Prelude.{String, ◌==◌, List}
use smallworld_be.Prelude.Lists.{select}
use smallworld_be.Prelude.Table.{get, put, values}
use smallworld_be.Domain.Models.{User, IdentityVerification, Vehicle, Review}
use smallworld_be.Domain.Errors.{
  ok, user_not_found, verification_required, vehicle_not_found, idempotency_key_not_found,
}
use smallworld_be.World.{IdempotencyRecord}
use smallworld_be.World.Exec.{Exec, or_fail}
use smallworld_be.Memory.Common.{set_store, first_or}

abbrev pub save_user : User → Exec (Unit {0})
save_user user w = set_store (record w.store { users = put user.id user w.users }) w

abbrev pub find_user : String → Exec User
find_user id w = (or_fail (get id w.users) user_not_found, w)

unfoldable pub find_user_by_auth_subject : String → Exec User
find_user_by_auth_subject subject w =
    (first_or user_not_found (select (λ u. u.auth_subject == subject) (values w.users)), w)

abbrev pub save_verification : IdentityVerification → Exec (Unit {0})
save_verification v w =
    set_store (record w.store { verifications = put v.user_id v w.verifications }) w

abbrev pub find_verification : String → Exec IdentityVerification
find_verification user_id w = (or_fail (get user_id w.verifications) verification_required, w)

abbrev pub save_vehicle : Vehicle → Exec (Unit {0})
save_vehicle v w = set_store (record w.store { vehicles = put v.id v w.vehicles }) w

unfoldable pub list_vehicles : String → Exec (List Vehicle)
list_vehicles user_id w = (ok (select (λ v. v.user_id == user_id) (values w.vehicles)), w)

abbrev pub find_vehicle : String → Exec Vehicle
find_vehicle id w = (or_fail (get id w.vehicles) vehicle_not_found, w)

abbrev pub save_review : Review → Exec (Unit {0})
save_review r w = set_store (record w.store { reviews = put r.id r w.reviews }) w

unfoldable pub list_reviews : String → Exec (List Review)
list_reviews subject w = (ok (select (λ r. r.subject_id == subject) (values w.reviews)), w)

abbrev pub save_result : String → String → String → Exec (Unit {0})
save_result key resource_id payload_hash w =
    set_store
      (record w.store {
        idempotency =
            put key (record { resource_id = resource_id; payload_hash = payload_hash })
              w.idempotency;
      })
      w

abbrev pub find_result : String → Exec IdempotencyRecord
find_result key w = (or_fail (get key w.idempotency) idempotency_key_not_found, w)
