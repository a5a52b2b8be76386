-- ===== src/Services/Reviews.antt =====
-- internal/application/service/review_service.go.
pub mod Sides
use smallworld_be.Prelude.{String, ◌==◌, Bool, true, false, List, if◌then◌else◌}
use smallworld_be.Prelude.Int.{ℤ}
use smallworld_be.Domain.States.{RideBookingState}
use smallworld_be.Domain.Models.{Time, RideBooking, Review}
use smallworld_be.Domain.Errors.{Result, ok, err, unauthorized}
use smallworld_be.World.Exec.{Exec, pure, lift, require, ◌>>=◌, ◌>>◌}
use smallworld_be.World.Calls.{now, next_id}
use smallworld_be.Memory.{find_booking, save_review, list_reviews}

abbrev pub is_completed : RideBookingState → Bool
is_completed RideBookingState.completed = true
is_completed _ = false

unfoldable pub new_review : String → String → String → String → ℤ → String → Time → Review
new_review id booking_id author subject rating comment t = record {
  id = id;
  booking_id = booking_id;
  author_id = author;
  subject_id = subject;
  rating = rating;
  comment = comment;
  created_at = t;
}

-- The writing of a review, which both methods end with.
unfoldable pub write_review : String → String → String → ℤ → String → Exec Review
unfolding new_review
write_review booking_id author subject rating comment = do
  id ← next_id "review"
  t ← now
  save_review (new_review id booking_id author subject rating comment t)
  pure (new_review id booking_id author subject rating comment t)

unfoldable pub create : String → String → String → ℤ → String → Exec Review
unfolding write_review
create booking_id author subject rating comment = do
  booking ← find_booking booking_id
  require (is_completed booking.state) unauthorized
  write_review booking_id author subject rating comment

-- switch authorID { case booking.RiderID: …; case booking.DriverID: …; default: … }
unfoldable pub other_side : String → RideBooking → Result String
other_side author b =
    if author == b.rider_id
    then ok b.driver_id
    else if author == b.driver_id
    then ok b.rider_id
    else err unauthorized

unfoldable pub create_for_actor : String → String → ℤ → String → Exec Review
unfolding write_review other_side
create_for_actor booking_id author rating comment = do
  booking ← find_booking booking_id
  require (is_completed booking.state) unauthorized
  subject ← lift (other_side author booking)
  write_review booking_id author subject rating comment

unfoldable pub list_by_subject : String → Exec (List Review)
unfolding list_reviews
list_by_subject subject = list_reviews subject
