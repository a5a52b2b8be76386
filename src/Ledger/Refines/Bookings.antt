-- ===== src/Ledger/Refines/Bookings.antt =====
-- booking_service.go.
use smallworld_be.Prelude.{String, ◌≡◌, ◌⊎◌, some, arith, inl, inr, Option-cases}
use smallworld_be.Prelude.Table.{get}
use smallworld_be.Domain.States.{RideBookingState}
use smallworld_be.Domain.Models.{RideBooking}
use smallworld_be.Domain.Errors.{Result-cases}
use smallworld_be.Domain.Policies.{require_transition}
use smallworld_be.World.{World}
use smallworld_be.Services.Bookings.{transition, transition_for_actor, move_booking}
use smallworld_be.Ledger.Tables.{IsKeyed}
use smallworld_be.Ledger.{Steps, Step}
use smallworld_be.Ledger.Refines.{Steps-of_eq, Steps-of_step}

move_booking-Steps :
    (b : RideBooking) (next : RideBookingState) (w : World)
    → get b.id w.ride_bookings ≡ some b
    → Steps w.store (move_booking b next w).1.store
unfolding move_booking require_transition
move_booking-Steps b next w g = elim (Result-cases (move_booking b next w).0) [
  | inl (b', r) ↦ Steps-of_step (Step.move_booking b b' g (ground arith) (ground arith))
  | inr (x, r) ↦ Steps-of_eq (ground arith)
]

-- Either nothing is written, or the booking that was found is moved.
transition_for_actor_cases :
    (actor id : String) (next : RideBookingState) (w : World) (b : RideBooking)
    → get id w.ride_bookings ≡ some b
    → ((transition_for_actor actor id next w).1.store ≡ w.store)
      ⊎ ((transition_for_actor actor id next w).1.store ≡ (move_booking b next w).1.store)
unfolding transition_for_actor
transition_for_actor_cases actor id next w b g = ground arith

pub transition-Steps :
    (id : String) (next : RideBookingState) (w : World)
    → IsKeyed w.store
    → Steps w.store (transition id next w).1.store
unfolding transition
transition-Steps id next w k = elim (Option-cases (get id w.ride_bookings)) [
  | inl e ↦ Steps-of_eq (ground arith)
  | inr (b, e) ↦
      rw (e, transition) (move_booking-Steps b next w (ground (arith, k.bookings id b e)))
]

pub transition_for_actor-Steps :
    (actor id : String) (next : RideBookingState) (w : World)
    → IsKeyed w.store
    → Steps w.store (transition_for_actor actor id next w).1.store
unfolding transition_for_actor
transition_for_actor-Steps actor id next w k = elim (Option-cases (get id w.ride_bookings)) [
  | inl e ↦ Steps-of_eq (ground arith)
  | inr (b, e) ↦ elim (transition_for_actor_cases actor id next w b e) [
    | inl s ↦ Steps-of_eq s
    | inr s ↦ rw s (move_booking-Steps b next w (ground (arith, k.bookings id b e)))
  ]
]
