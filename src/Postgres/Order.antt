-- ===== src/Postgres/Order.antt =====
-- The lists of internal/infrastructure/postgres have the rows of the memory store, in the order that
-- the statement asks for. Rows that this order leaves equal may come in any order from a database;
-- here they come as the table has them, and nothing is proved of their order.
use mathlib.Core.List.Perm
use mathlib.Core.List.{Perm}
use smallworld_be.Prelude.{String, ◌==◌, ◌≡◌, refl, Bool, not, ◌&&◌, ◌||◌, none, List, arith}
use smallworld_be.Prelude.Int.{ℤ, ltb_ℤ}
use smallworld_be.Prelude.Lists.{select, select-same}
use smallworld_be.Prelude.Sort.{sort, sort-perm, sort-IsSorted, IsSorted, IsOrder}
use smallworld_be.Prelude.Table.{values}
use smallworld_be.Domain.Models.{Vehicle, DriverSession, RideOffer, RideBooking, Review}
use smallworld_be.Domain.Policies.{is_active_or_full}
use smallworld_be.Domain.Errors.{Result, ok}
use smallworld_be.World.{World}
use smallworld_be.Memory
use smallworld_be.Memory.{is_pending, is_terminal_booking_state, driven_by}
use smallworld_be.Postgres.{Pool, statement}
use smallworld_be.Postgres.Accounts.{list_vehicles, vehicle_before, list_reviews, review_before}
use smallworld_be.Postgres.Sessions.{list_active, session_updated_before, in_service}
use smallworld_be.Postgres.Offers.{
  list_pending, list_pending_by_driver, offer_older, offer_newer, joins, is_waiting,
}
use smallworld_be.Postgres.Joins.{joins-same}
use smallworld_be.Ledger.Keys.{KeyedBy}
use smallworld_be.Ledger.Distinct.{IsDistinct}
use smallworld_be.Postgres.Bookings.{
  list_by_session, booking_older, list_active_bookings, booking_newer, is_over,
}

module _ {A : Type 0} (t : A → ℤ) where
  pub ascending : IsOrder (λ (a b : A). ltb_ℤ (t a) (t b))
  ascending = record { asym = λ x y h. ground arith; trans = λ x y z h k. ground arith }

  pub descending : IsOrder (λ (a b : A). ltb_ℤ (t b) (t a))
  descending = record { asym = λ x y h. ground arith; trans = λ x y z h k. ground arith }

-- The second query gives the rows of the first, none twice that is there once, and sorted.
pub record Arranged {A : Type 0} (before : A → A → Bool) (m n : Result (List A) × World)
    : Type 0 where
  pub rows : List A
  pub sorted_rows : List A
  pub of_memory : m.0 ≡ ok rows
  pub of_database : n.0 ≡ ok sorted_rows
  pub same : Perm sorted_rows rows
  pub in_order : IsSorted before sorted_rows
  pub same_world : n.1 ≡ m.1

arrange :
    {A : Type 0} (before : A → A → Bool) (keep kept : A → Bool) (xs : List A) (w : World)
    → IsOrder before
    → ((x : A) → kept x ≡ keep x)
    → Arranged before (ok (select keep xs), w) (ok (sort before (select kept xs)), w)
arrange before keep kept xs w o h = rw (select-same kept keep xs h) (record {
  rows = select keep xs;
  sorted_rows = sort before (select keep xs);
  of_memory = refl;
  of_database = refl;
  same = sort-perm before (select keep xs);
  in_order = sort-IsSorted before o (select keep xs);
  same_world = refl;
})

-- The same, of two queries that both sort.
pub record BothArranged {A : Type 0} (before : A → A → Bool) (m n : Result (List A) × World)
    : Type 0 where
  pub arranged : Arranged before m n
  pub memory_in_order : IsSorted before arranged.rows

arrange_both :
    {A : Type 0} (before : A → A → Bool) (keep kept : A → Bool) (xs : List A) (w : World)
    → IsOrder before
    → ((x : A) → kept x ≡ keep x)
    → BothArranged before
        (ok (sort before (select keep xs)), w)
        (ok (sort before (select kept xs)), w)
arrange_both before keep kept xs w o h = rw (select-same kept keep xs h) (record {
  arranged = record {
    rows = sort before (select keep xs);
    sorted_rows = sort before (select keep xs);
    of_memory = refl;
    of_database = refl;
    same = Perm.refl (sort before (select keep xs));
    in_order = sort-IsSorted before o (select keep xs);
    same_world = refl;
  };
  memory_in_order = sort-IsSorted before o (select keep xs);
})

-- What the statements of a pool give where none of them fails.
pub record SameLists (p : Pool) (key : String) (w : World) : Type 0 where
  pub sessions : Arranged session_updated_before (Memory.list_active w) (list_active p w)
  pub offers : Arranged offer_older (Memory.list_pending w) (list_pending p w)
  pub bookings : Arranged booking_older (Memory.list_by_session key w) (list_by_session p key w)
  pub vehicles : Arranged vehicle_before (Memory.list_vehicles key w) (list_vehicles p key w)
  pub reviews : Arranged review_before (Memory.list_reviews key w) (list_reviews p key w)
  pub waiting_offers :
      BothArranged offer_newer
        (Memory.list_pending_by_driver key w)
        (list_pending_by_driver p key w)
  pub open_bookings :
      BothArranged booking_newer (Memory.list_active_bookings key w) (list_active_bookings p key w)

-- Every list that the database gives for a key has exactly the rows that the memory store's has,
-- each as often, in the order of its statement, and changes nothing; the memory store's lists of a
-- user's open bookings and of the offers that wait for a driver are in that same order too. Rows
-- that the order leaves equal may stand in any order. The statements must not fail, and sessions
-- must be stored under their ids, no id twice.
pub lists-SameLists :
    (p : Pool) (key : String) (w : World)
    → ((name : String) → p.failure name w ≡ none)
    → KeyedBy (λ (s : DriverSession). s.id) w.driver_sessions
    → IsDistinct w.driver_sessions
    → SameLists p key w
unfolding statement list_active list_pending list_by_session list_vehicles list_reviews
    list_active_bookings list_pending_by_driver offer_newer session_updated_before offer_older
    booking_older vehicle_before review_before booking_newer in_service is_waiting is_over
    Memory.list_active Memory.list_pending Memory.list_by_session Memory.list_vehicles
    Memory.list_reviews Memory.list_active_bookings Memory.list_pending_by_driver
    Memory.offer_before Memory.booking_before is_terminal_booking_state
lists-SameLists p key w h k d = record {
  sessions = rw (h "list active driver sessions") (
      arrange _ (λ s. is_active_or_full s.state) (λ s. in_service s.state)
        (values w.driver_sessions) w (descending (λ (s : DriverSession). s.updated_at))
        (λ s. ground arith));
  offers = rw (h "list pending ride offers") (
      arrange _ (λ o. is_pending o.state) (λ o. is_waiting o.state) (values w.ride_offers) w
        (ascending (λ (o : RideOffer). o.created_at)) (λ o. ground arith));
  bookings = rw (h "list ride bookings by driver session id") (
      arrange _ (λ b. b.driver_session_id == key) (λ b. b.driver_session_id == key)
        (values w.ride_bookings) w (ascending (λ (b : RideBooking). b.created_at)) (λ b. refl));
  vehicles = rw (h "list vehicles by user id") (
      arrange _ (λ v. v.user_id == key) (λ v. v.user_id == key) (values w.vehicles) w
        (ascending (λ (v : Vehicle). v.created_at)) (λ v. refl));
  reviews = rw (h "list reviews by subject id") (
      arrange _ (λ r. r.subject_id == key) (λ r. r.subject_id == key) (values w.reviews) w
        (descending (λ (r : Review). r.created_at)) (λ r. refl));
  waiting_offers = rw (h "list pending ride offers by driver id") (
      arrange_both _
        (λ o. is_pending o.state && driven_by key (values w.driver_sessions) o.driver_session_id)
        (λ o. joins key w.driver_sessions o && is_waiting o.state) (values w.ride_offers) w
        (descending (λ (o : RideOffer). o.created_at))
        (λ o. ground (arith, joins-same key o w.driver_sessions k d)));
  open_bookings = rw (h "list active ride bookings by actor id") (
      arrange_both _
        (λ b. (b.rider_id == key || b.driver_id == key) && not (is_terminal_booking_state b.state))
        (λ b. (b.rider_id == key || b.driver_id == key) && not (is_over b.state))
        (values w.ride_bookings) w (descending (λ (b : RideBooking). b.updated_at))
        (λ b. ground arith));
}
