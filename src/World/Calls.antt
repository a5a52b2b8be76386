-- ===== src/World/Calls.antt =====
-- The clock, the id generator, and the calls that leave the program.
use smallworld_be.Prelude.{suc, String, Option, none, some, ◌∷◌}
use smallworld_be.Domain.Models.{Time, DriverSession, RideOffer, RideBooking}
use smallworld_be.Domain.Errors.{Result, ok, err, Error}
use smallworld_be.World.{
  World, Message, Payload, DriverPresenceStore, EphemeralOfferStore, send_driver_offer,
  send_rider_matched, publish_to_user, save_session, delete_session, save_pending_offer,
  delete_pending_offer,
}
use smallworld_be.World.Exec.{Exec}

-- time.Now().UTC()
abbrev pub now : Exec Time
now w = (ok (w.clock w.ticks), record w { ticks = suc w.ticks })

-- idg.New(prefix)
abbrev pub next_id : String → Exec String
next_id prefix w = (ok (w.new_id w.seq prefix), record w { seq = suc w.seq })

abbrev pub sent : Message → World → World
sent m w = record w { outbox = m ∷ w.outbox }

abbrev pub push_driver_offer : String → RideOffer → Exec (Unit {0})
push_driver_offer user offer w = (ok tt, sent (send_driver_offer user offer) w)

abbrev pub push_rider_matched : String → RideBooking → Exec (Unit {0})
push_rider_matched user booking w = (ok tt, sent (send_rider_matched user booking) w)

abbrev pub publish : String → String → Payload → Exec (Unit {0})
publish user event payload w = (ok tt, sent (publish_to_user user event payload) w)

abbrev pub answer : Option Error → Result (Unit {0})
answer none = ok tt
answer (some e) = err e

-- if s.presence != nil { if err := s.presence.…(…); err != nil { … } }
abbrev call_presence : Option DriverPresenceStore → Message → Exec (Unit {0})
call_presence none m w = (ok tt, w)
call_presence (some p) m w = (answer (p.failure w.outbox m), sent m w)

unfoldable pub presence_save : DriverSession → Exec (Unit {0})
presence_save session w = call_presence w.presence (save_session session) w

unfoldable pub presence_delete : String → Exec (Unit {0})
presence_delete id w = call_presence w.presence (delete_session id) w

abbrev call_ephemeral : Option EphemeralOfferStore → Message → Exec (Unit {0})
call_ephemeral none m w = (ok tt, w)
call_ephemeral (some p) m w = (answer (p.failure w.outbox m), sent m w)

-- if s.ephemeral != nil { … s.ephemeral.SavePendingOffer(…) … }
unfoldable pub ephemeral_save : RideOffer → Exec (Unit {0})
ephemeral_save offer w = call_ephemeral w.ephemeral (save_pending_offer offer) w

unfoldable pub ephemeral_delete : String → Exec (Unit {0})
ephemeral_delete id w = call_ephemeral w.ephemeral (delete_pending_offer id) w
