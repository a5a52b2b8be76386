-- ===== src/Tests/Tables.antt =====
-- Statements of the database, and a heartbeat that another request overtakes.
use smallworld_be.Prelude.{
  ◌≡◌, ◌≢◌, ◌↔◌, refl, sym, ap, ◌∙◌, ◌⊎◌, inl, inr, some, none, [], ◌∷◌, arith, eq_iff,
}
use smallworld_be.Prelude.Int.{pos, ◌+ℤ◌, ◌<ℤ◌}
use smallworld_be.Prelude.Table.{get, put, values, count}
use smallworld_be.Domain.States.{RideOfferState, offer_text}
use smallworld_be.Domain.Models.{DriverSession, RideOffer}
use smallworld_be.Domain.Errors.{ok, err, offer_not_found, transition_not_allowed}
use smallworld_be.Domain.Policies.{require_transition, offer_can_transition}
use smallworld_be.World.{World}
use smallworld_be.Memory
use smallworld_be.Services.Inputs.{HeartbeatDriverSessionInput}
use smallworld_be.World.Calls.{ephemeral_delete}
use smallworld_be.Services.Offers.{accept}
use smallworld_be.Services.Offers.Booking.{new_booking}
use smallworld_be.Services.Sessions.Updates.{heartbeat}
use smallworld_be.Ledger.Seats.{seats, booked}
use smallworld_be.Ledger.Races.{raced_heartbeat, raced_heartbeat-seats}
use smallworld_be.Postgres.{Pool}
use smallworld_be.Postgres.Order.{SameLists, lists-SameLists}
use smallworld_be.Postgres.Saves.{find-save}
use smallworld_be.Postgres.Moves.{transition_pending-memory, find_current_session-memory, Untied}
use smallworld_be.Prelude.Lists.{Among}
use smallworld_be.Postgres.Sessions.{session_row, find_current_session, save_session, find_session}
use smallworld_be.Postgres.Demands.{demand_row, save_demand, find_demand}
use smallworld_be.Postgres.Offers.{offer_row, transition_pending, save_offer, find_offer}
use smallworld_be.Postgres.Bookings.{booking_row, save_booking, find_booking}
use smallworld_be.Tests.Fixtures.{world, session, demand, offer, riding, spot}

-- A database whose columns keep no time, and which refuses nothing.
abbrev pool : Pool
pool = record { failure = λ name w. none; time = λ t. pos 7; point = λ l. l; rating = λ x. x }

lists-SameLists_example : SameLists pool "driver" world
unfolding get
lists-SameLists_example =
    lists-SameLists pool "driver" world (λ name. refl) (λ k v h. ground (arith, eq_iff "s1" k))
      (refl, tt)

find-save_example :
    ((find_session pool "s1" (save_session pool session world).1).0
      ≡ ok (record session { last_heartbeat_at = pos 7; updated_at = pos 7 }))
    × ((find_demand pool "t1" (save_demand pool demand world).1).0
        ≡ ok (record demand { updated_at = pos 7 }))
    × ((find_offer pool "o1" (save_offer pool offer world).1).0
        ≡ ok (record offer { updated_at = pos 7 }))
    × ((find_booking pool "b1" (save_booking pool riding world).1).0
        ≡ ok (record riding { updated_at = pos 7 }))
unfolding get session_row demand_row offer_row booking_row
find-save_example = find-save pool world session demand offer riding (λ name u. refl)

transition_pending-memory_example :
    (((get "o1" world.ride_offers ≡ none)
        ⊎ ((o : RideOffer) × (get "o1" world.ride_offers ≡ some o)
            × (o.state ≡ RideOfferState.pending)))
      × (transition_pending pool "o1" RideOfferState.expired (pos 9) world
          ≡ Memory.transition_pending "o1" RideOfferState.expired (pos 7) world))
    ⊎ ((o : RideOffer) × (get "o1" world.ride_offers ≡ some o)
        × (o.state ≢ RideOfferState.pending)
        × (transition_pending pool "o1" RideOfferState.expired (pos 9) world
            ≡ (err offer_not_found, world))
        × (Memory.transition_pending "o1" RideOfferState.expired (pos 7) world ≡ (
          err (
              transition_not_allowed "ride_offer"
                (offer_text o.state)
                (offer_text RideOfferState.expired)),
          world,
        )))
transition_pending-memory_example =
    transition_pending-memory pool "o1" RideOfferState.expired (pos 9) world refl

-- Two sessions that tie in nothing, as two stores hold them.
abbrev later : DriverSession
later = record session { id = "s2"; updated_at = pos 5 }

abbrev one_order : World
one_order = record world {
  store = record world.store { driver_sessions = ("s1", session) ∷ ("s2", later) ∷ [] };
}

abbrev other_order : World
other_order = record world {
  store = record world.store { driver_sessions = ("s2", later) ∷ ("s1", session) ∷ [] };
}

later-Untied : Untied "driver" one_order
unfolding values
later-Untied a b (inl e) (inl f) s t = e ∙ sym f
later-Untied a b (inr (inl e)) (inr (inl f)) s t = e ∙ sym f
later-Untied a b (inl e) (inr (inl f)) s t = absurd (
    ground (
      arith,
      ap (λ (x : DriverSession). x.updated_at) e,
      ap (λ (x : DriverSession). x.updated_at) f,
    ))
later-Untied a b (inr (inl e)) (inl f) s t = absurd (
    ground (
      arith,
      ap (λ (x : DriverSession). x.updated_at) e,
      ap (λ (x : DriverSession). x.updated_at) f,
    ))
later-Untied a b (inr (inr e)) m s t = absurd e
later-Untied a b m (inr (inr e)) s t = absurd e

same_rows :
    (s : DriverSession)
    → Among s (values one_order.driver_sessions) ↔ Among s (values other_order.driver_sessions)
unfolding values
same_rows s = (
  λ m. elim m [ inl e ↦ inr (inl e) | inr (inl e) ↦ inl e | inr (inr e) ↦ absurd e ],
  λ m. elim m [ inl e ↦ inr (inl e) | inr (inl e) ↦ inl e | inr (inr e) ↦ absurd e ],
)

find_current_session-memory_example :
    ((find_current_session pool "driver" other_order).0
      ≡ (Memory.find_current_session "driver" one_order).0)
    × ((find_current_session pool "driver" other_order).1 ≡ other_order)
    × ((Memory.find_current_session "driver" one_order).1 ≡ one_order)
unfolding values
find_current_session-memory_example =
    find_current_session-memory pool "driver" one_order other_order refl same_rows
      (refl, (refl, tt)) (refl, (refl, tt)) later-Untied

abbrev beat : HeartbeatDriverSessionInput
beat = record { session_id = "s1"; current_location = spot }

abbrev booked_world : World
booked_world = (accept "driver" "o1" world).1

raced_heartbeat-seats_example :
    (raced_heartbeat beat world world ≡ heartbeat beat world)
    × ((d' : DriverSession) × (get "s1" (raced_heartbeat beat world booked_world).1.driver_sessions
          ≡ some d')
        × (d'.remaining_capacity ≡ pos 1)
        × (pos 3 <ℤ seats "s1" d' (raced_heartbeat beat world booked_world).1.store))
unfolding get put seats booked count ◌+ℤ◌ accept require_transition offer_can_transition
    ephemeral_delete new_booking
raced_heartbeat-seats_example =
    raced_heartbeat-seats beat session world booked_world refl refl (omega arith)
