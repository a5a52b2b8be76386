-- ===== src/Ledger/Seats.antt =====
-- Seats: what a session has left and what is booked on it add up to the same number for ever.
use smallworld_be.Prelude.{
  ℕ, ◌+◌, String, ◌==◌, ◌≡◌, refl, sym, subst, ◌∙◌, ap, inl, inr, false, none, some, arith, eq_iff,
  Bool-cases,
}
use smallworld_be.Prelude.Int.{ℤ, pos, ◌+ℤ◌, ◌≤ℤ◌, leb_ℤ, +ℤ_parts}
use smallworld_be.Prelude.Lists.{one_if}
use smallworld_be.Prelude.Table.{get, put, count, count-put, Table, get-put}
use smallworld_be.Prelude.{if◌then◌else◌}
use smallworld_be.Domain.Models.{DriverSession, RideBooking}
use smallworld_be.World.{Store}
use smallworld_be.Services.Offers.Booking.{take_seat, new_booking}
use smallworld_be.Ledger.{
  Step, Steps, here, next, Acceptance, BookingMove, aside, start_session, move_session, open_demand,
  move_demand, make_offer, move_offer, accept, move_booking,
}

-- How many bookings a session has, whatever their state.
unfoldable pub booked : String → Table RideBooking → ℕ
booked k m = count (λ b. b.driver_session_id == k) m

booked-move :
    (k : String) (b b' : RideBooking) (m : Table RideBooking)
    → get b.id m ≡ some b
    → BookingMove b b'
    → booked k (put b.id b' m) ≡ booked k m
unfolding booked
booked-move k b b' m g mv =
    ground
      (arith, count-put (λ (x : RideBooking). x.driver_session_id == k) b.id b' m, mv.same_session)

booked-new :
    (k : String) (b : RideBooking) (m : Table RideBooking)
    → get b.id m ≡ none
    → booked k (put b.id b m) ≡ booked k m + one_if (b.driver_session_id == k)
unfolding booked
booked-new k b m g =
    ground (arith, count-put (λ (x : RideBooking). x.driver_session_id == k) b.id b m)

-- The seats of a session: those left, and those booked.
unfoldable pub seats : String → DriverSession → Store → ℤ
unfolding booked
seats k d s = d.remaining_capacity +ℤ pos (booked k s.ride_bookings)

abbrev pub SeatsKept : String → DriverSession → Store → Store → Type 0
SeatsKept k d s s' =
    (d' : DriverSession) × (get k s'.driver_sessions ≡ some d')
    × (seats k d' s' ≡ seats k d s)
    × (pos 0 ≤ℤ d.remaining_capacity → pos 0 ≤ℤ d'.remaining_capacity)

-- A step that leaves the seats of every session and the number of its bookings alone.
kept_by :
    (s s' : Store) (k : String) (d d' : DriverSession)
    → get k s'.driver_sessions ≡ some d'
    → d'.remaining_capacity ≡ d.remaining_capacity
    → booked k s'.ride_bookings ≡ booked k s.ride_bookings
    → SeatsKept k d s s'
unfolding seats
kept_by s s' k d d' g c e = (d', g, ground arith, λ h. subst (λ (z : ℤ). pos 0 ≤ℤ z) (sym c) h)

-- The same with the sessions and the bookings untouched.
kept_same :
    (s s' : Store) (k : String) (d : DriverSession)
    → get k s.driver_sessions ≡ some d
    → s'.driver_sessions ≡ s.driver_sessions
    → s'.ride_bookings ≡ s.ride_bookings
    → SeatsKept k d s s'
kept_same s s' k d g e f = kept_by s s' k d d (ground arith) refl (ap (booked k) f)

left_after :
    (d : DriverSession) (t : ℤ) (n : ℕ)
    → (take_seat d t).remaining_capacity +ℤ pos (n + 1) ≡ d.remaining_capacity +ℤ pos n
unfolding take_seat ◌+ℤ◌
left_after d t n = ground arith

still_nonneg :
    (d : DriverSession) (t : ℤ)
    → leb_ℤ d.remaining_capacity (pos 0) ≡ false
    → pos 0 ≤ℤ (take_seat d t).remaining_capacity
unfolding take_seat
still_nonneg d t h = ground arith

booked-accept :
    (s s' : Store) (k : String) (a : Acceptance s s')
    → booked k s'.ride_bookings ≡ booked k s.ride_bookings + one_if (a.session.id == k)
unfolding new_booking
booked-accept s s' k a =
    let b = new_booking a.booking_id a.offer a.session a.demand a.vehicle a.created a.updated in
    ground (arith, a.result, booked-new k b s.ride_bookings a.unused)

sessions-accept :
    (s s' : Store) (k : String) (a : Acceptance s s')
    → get k s'.driver_sessions ≡ (
        if a.session.id == k
        then some (take_seat a.session a.session_time)
        else get k s.driver_sessions)
sessions-accept s s' k a =
    ground (
      arith,
      a.result,
      get-put a.session.id k (take_seat a.session a.session_time) s.driver_sessions,
    )

SeatsKept-accept :
    (s s' : Store) (k : String) (d : DriverSession)
    → Acceptance s s'
    → get k s.driver_sessions ≡ some d
    → SeatsKept k d s s'
unfolding seats
SeatsKept-accept s s' k d a g = elim (Bool-cases (a.session.id == k)) [
  | inl t ↦
      let is_d : a.session ≡ d = ground (arith, a.has_session, eq_iff a.session.id k) in
      let t' = a.session_time in
      (
        take_seat d t',
        ground (arith, sessions-accept s s' k a),
        ground (arith, booked-accept s s' k a, left_after d t' (booked k s.ride_bookings)),
        λ h. still_nonneg d t' (ground (arith, a.has_seat)),
      )
  | inr f ↦
      kept_by s s' k d d (ground (arith, sessions-accept s s' k a)) refl
        (ground (arith, booked-accept s s' k a))
]

Step-seats :
    {s s' : Store} (k : String) (d : DriverSession)
    → Step s s'
    → get k s.driver_sessions ≡ some d
    → SeatsKept k d s s'
Step-seats {s} {s'} k d (aside ds td ro rb) g = kept_same s s' k d g ds rb
Step-seats {s} {s'} k d (start_session x f n e) g =
    kept_by s s' k d d (ground (arith, get-put x.id k x s.driver_sessions, eq_iff x.id k)) refl
      (ground arith)
Step-seats {s} {s'} k d (move_session x x' h m e) g = elim (Bool-cases (x.id == k)) [
  | inl t ↦
      kept_by s s' k d x' (ground (arith, get-put x.id k x' s.driver_sessions))
        (ground (arith, m.same_seats, eq_iff x.id k)) (ground arith)
  | inr t ↦
      kept_by s s' k d d (ground (arith, get-put x.id k x' s.driver_sessions)) refl (ground arith)
]
Step-seats {s} {s'} k d (open_demand x f e) g = kept_same s s' k d g (ground arith) (ground arith)
Step-seats {s} {s'} k d (move_demand x x' h m e) g =
    kept_same s s' k d g (ground arith) (ground arith)
Step-seats {s} {s'} k d (make_offer o f n e) g = kept_same s s' k d g (ground arith) (ground arith)
Step-seats {s} {s'} k d (move_offer o o' h m e) g =
    kept_same s s' k d g (ground arith) (ground arith)
Step-seats {s} {s'} k d (accept a) g = SeatsKept-accept s s' k d a g
Step-seats {s} {s'} k d (move_booking b b' h m e) g =
    kept_by s s' k d d (ground arith) refl (ground (arith, booked-move k b b' s.ride_bookings h m))

-- The same over any number of steps.
pub seats-Steps :
    {s s' : Store} (k : String) (d : DriverSession)
    → Steps s s'
    → get k s.driver_sessions ≡ some d
    → SeatsKept k d s s'
seats-Steps k d here g = (d, g, refl, λ h. h)
seats-Steps k d (next r st) g =
    let (d', g', e, n) = seats-Steps k d r g in
    let (d2, g2, e2, n2) = Step-seats k d' st g' in (d2, g2, e2 ∙ e, λ h. n2 (n h))

booked-le-seats_now :
    (k : String) (d : DriverSession) (s : Store)
    → pos 0 ≤ℤ d.remaining_capacity
    → pos (booked k s.ride_bookings) ≤ℤ seats k d s
unfolding seats
booked-le-seats_now k d s h =
    omega (arith, +ℤ_parts d.remaining_capacity (pos (booked k s.ride_bookings)))

-- The bookings of a session never outnumber the seats that it had, left and booked, at any earlier
-- time at which the seats left were not negative.
pub booked-le-seats :
    {s s' : Store} (k : String) (d : DriverSession)
    → Steps s s'
    → get k s.driver_sessions ≡ some d
    → pos 0 ≤ℤ d.remaining_capacity
    → pos (booked k s'.ride_bookings) ≤ℤ seats k d s
booked-le-seats {s} {s'} k d r g h =
    let (d', g', e, n) = seats-Steps k d r g in
    subst (λ (z : ℤ). pos (booked k s'.ride_bookings) ≤ℤ z) e (booked-le-seats_now k d' s' (n h))
