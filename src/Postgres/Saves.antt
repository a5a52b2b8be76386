-- ===== src/Postgres/Saves.antt =====
-- What internal/infrastructure/postgres saves is what it finds.
use text.Mathlib.TextPositions.{eq_refl}
use smallworld_be.Prelude.{String, ◌≡◌, refl, Option, some, none, inl, inr, Option-cases}
use smallworld_be.Prelude.Table.{Table, get, get-put}
use smallworld_be.Domain.Models.{Time, DriverSession, TripDemand, RideOffer, RideBooking}
use smallworld_be.Domain.Errors.{ok}
use smallworld_be.World.{World}
use smallworld_be.Postgres.{Pool, statement, updated, upsert}
use smallworld_be.Postgres.Sessions.{session_row, save_session, find_session}
use smallworld_be.Postgres.Demands.{demand_row, save_demand, find_demand}
use smallworld_be.Postgres.Offers.{offer_row, save_offer, find_offer}
use smallworld_be.Postgres.Bookings.{booking_row, save_booking, find_booking}

pub upsert-get :
    {A : Type 0} (keep : A → A → A) (id : String) (new : A) (t : Table A)
    → get id (upsert keep id new t) ≡ some (updated keep (get id t) new)
unfolding upsert
upsert-get keep id new t = rw (get-put id id (updated keep (get id t) new) t, eq_refl id) refl

-- The time of a row's first save.
abbrev since : {A : Type 0} → (A → Time) → Option A → Time → Time
since created none t = t
since created (some old) t = created old

module _ (p : Pool) (w : World) (h : (name : String) (u : World) → p.failure name u ≡ none) where
  session-saved :
      (x : DriverSession)
      → (find_session p x.id (save_session p x w).1).0
        ≡ ok (record (session_row p x) {
          created_at = since (λ y. y.created_at) (get x.id w.driver_sessions) (p.time x.created_at);
        })
  unfolding find_session save_session statement session_row
  session-saved x = elim (Option-cases (get x.id w.driver_sessions)) [
    | inl e ↦ rw (h "save driver session" w, h "scan driver session" _, upsert-get, e) refl
    | inr (old, e) ↦ rw (h "save driver session" w, h "scan driver session" _, upsert-get, e) refl
  ]

  demand-saved :
      (x : TripDemand)
      → (find_demand p x.id (save_demand p x w).1).0
        ≡ ok (record (demand_row p x) {
          created_at = since (λ y. y.created_at) (get x.id w.trip_demands) (p.time x.created_at);
        })
  unfolding find_demand save_demand statement demand_row
  demand-saved x = elim (Option-cases (get x.id w.trip_demands)) [
    | inl e ↦ rw (h "save trip demand" w, h "scan trip demand" _, upsert-get, e) refl
    | inr (old, e) ↦ rw (h "save trip demand" w, h "scan trip demand" _, upsert-get, e) refl
  ]

  offer-saved :
      (x : RideOffer)
      → (find_offer p x.id (save_offer p x w).1).0
        ≡ ok (record (offer_row p x) {
          created_at = since (λ y. y.created_at) (get x.id w.ride_offers) (p.time x.created_at);
        })
  unfolding find_offer save_offer statement offer_row
  offer-saved x = elim (Option-cases (get x.id w.ride_offers)) [
    | inl e ↦ rw (h "save ride offer" w, h "find ride offer by id" _, upsert-get, e) refl
    | inr (old, e) ↦ rw (h "save ride offer" w, h "find ride offer by id" _, upsert-get, e) refl
  ]

  booking-saved :
      (x : RideBooking)
      → (find_booking p x.id (save_booking p x w).1).0
        ≡ ok (record (booking_row p x) {
          created_at = since (λ y. y.created_at) (get x.id w.ride_bookings) (p.time x.created_at);
        })
  unfolding find_booking save_booking statement booking_row
  booking-saved x = elim (Option-cases (get x.id w.ride_bookings)) [
    | inl e ↦ rw (h "save ride booking" w, h "find ride booking by id" _, upsert-get, e) refl
    | inr (old, e) ↦ rw (h "save ride booking" w, h "find ride booking by id" _, upsert-get, e) refl
  ]

-- A session, a demand, an offer and a booking are found as they were saved: with what the columns
-- keep of the times and points, and with the creation time of the row's first save, which no later
-- save changes. No statement may fail.
pub find-save :
    (p : Pool) (w : World) (s : DriverSession) (d : TripDemand) (o : RideOffer) (b : RideBooking)
    → ((name : String) (u : World) → p.failure name u ≡ none)
    → ((find_session p s.id (save_session p s w).1).0
        ≡ ok (record (session_row p s) {
          created_at = since (λ y. y.created_at) (get s.id w.driver_sessions) (p.time s.created_at);
        }))
      × ((find_demand p d.id (save_demand p d w).1).0
          ≡ ok (record (demand_row p d) {
            created_at = since (λ y. y.created_at) (get d.id w.trip_demands) (p.time d.created_at);
          }))
      × ((find_offer p o.id (save_offer p o w).1).0
          ≡ ok (record (offer_row p o) {
            created_at = since (λ y. y.created_at) (get o.id w.ride_offers) (p.time o.created_at);
          }))
      × ((find_booking p b.id (save_booking p b w).1).0
          ≡ ok (record (booking_row p b) {
            created_at = since (λ y. y.created_at) (get b.id w.ride_bookings) (p.time b.created_at);
          }))
find-save p w s d o b h =
    (session-saved p w h s, demand-saved p w h d, offer-saved p w h o, booking-saved p w h b)
