-- ===== src/Services/Reviews/Sides.antt =====
-- Who may review whom, by review_service.go.
use smallworld_be.Prelude.{String, ◌≡◌, ◌⊎◌, inl, inr, some, arith, eq_iff, Option-cases}
use smallworld_be.Prelude.Int.{ℤ}
use smallworld_be.Prelude.Table.{get, put}
use smallworld_be.Domain.States.{RideBookingState}
use smallworld_be.Domain.Models.{RideBooking, Review}
use smallworld_be.Domain.Errors.{Error, ok, err, Result-cases}
use smallworld_be.World.{World}
use smallworld_be.Services.Reviews.{create_for_actor, other_side, new_review, write_review}

-- What a review that was written is about.
pub record Reviewed (id author : String) (rating : ℤ) (w : World) (r : Review) : Type 0 where
  pub booking : RideBooking
  pub has_booking : get id w.ride_bookings ≡ some booking
  pub completed : booking.state ≡ RideBookingState.completed
  pub sides :
      ((author ≡ booking.rider_id) × (r.subject_id ≡ booking.driver_id))
      ⊎ ((author ≡ booking.driver_id) × (r.subject_id ≡ booking.rider_id))
  pub same_author : r.author_id ≡ author
  pub same_booking : r.booking_id ≡ id
  pub same_rating : r.rating ≡ rating

Reviewed-create_for_actor :
    (id author : String) (rating : ℤ) (comment : String) (w : World) (r : Review)
    → (create_for_actor id author rating comment w).0 ≡ ok r
    → Reviewed id author rating w r
unfolding create_for_actor other_side write_review new_review
Reviewed-create_for_actor id author rating comment w r h =
    elim (Option-cases (get id w.ride_bookings)) [
      | inl e ↦ absurd (ground arith)
      | inr (b, hb) ↦ record {
        booking = b;
        has_booking = hb;
        completed = ground arith;
        sides = ground (arith, eq_iff author b.rider_id, eq_iff author b.driver_id);
        same_author = ground arith;
        same_booking = ground arith;
        same_rating = ground arith;
      }
    ]

create_for_actor-written :
    (id author : String) (rating : ℤ) (comment : String) (w : World) (r : Review)
    → (create_for_actor id author rating comment w).0 ≡ ok r
    → (create_for_actor id author rating comment w).1.store
      ≡ record w.store { reviews = put r.id r w.reviews }
unfolding create_for_actor other_side write_review new_review
create_for_actor-written id author rating comment w r h = ground arith

create_for_actor-error :
    (id author : String) (rating : ℤ) (comment : String) (w : World) (e : Error)
    → (create_for_actor id author rating comment w).0 ≡ err e
    → (create_for_actor id author rating comment w).1 ≡ w
unfolding create_for_actor other_side write_review
create_for_actor-error id author rating comment w e h = ground arith

-- A user's review either is refused and changes nothing, or its booking is completed, its author is
-- one side of the booking and its subject the other side, and it is the only row written.
pub create_for_actor-cases :
    (id author : String) (rating : ℤ) (comment : String) (w : World)
    → ((e : Error) × ((create_for_actor id author rating comment w).0 ≡ err e)
        × ((create_for_actor id author rating comment w).1 ≡ w))
      ⊎ ((r : Review) × ((create_for_actor id author rating comment w).0 ≡ ok r)
          × Reviewed id author rating w r
          × ((create_for_actor id author rating comment w).1.store
              ≡ record w.store { reviews = put r.id r w.reviews }))
create_for_actor-cases id author rating comment w =
    elim (Result-cases (create_for_actor id author rating comment w).0) [
      | inl (r, h) ↦ inr (
        r,
        h,
        Reviewed-create_for_actor id author rating comment w r h,
        create_for_actor-written id author rating comment w r h,
      )
      | inr (e, h) ↦ inl (e, h, create_for_actor-error id author rating comment w e h)
    ]
