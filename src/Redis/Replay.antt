-- ===== src/Redis/Replay.antt =====
-- The Redis stores as the stores of the services' surroundings: what a store answers follows from
-- the commands that the program's earlier calls have sent. cmd/api/main.go gives both stores one
-- client.
use smallworld_be.Prelude.{Option, none, some, List, [], ◌∷◌}
use smallworld_be.Domain.Models.{DriverSession}
use smallworld_be.Domain.Errors.{Error, Result, ok, err}
use smallworld_be.World
use smallworld_be.World.{
  Message, list_active_sessions, save_session, delete_session, save_pending_offer,
  delete_pending_offer,
}
use smallworld_be.Redis.{Command}
use smallworld_be.Redis.Presence
use smallworld_be.Redis.Presence.{DriverPresenceStore}
use smallworld_be.Redis.Offers
use smallworld_be.Redis.Offers.{EphemeralOfferStore}

abbrev pub error_of : {A : Type 0} → Result A → Option Error
error_of (ok a) = none
error_of (err e) = some e

abbrev pub list_of : Result (List DriverSession) → List DriverSession
list_of (ok ss) = ss
list_of (err e) = []

module _ (p : DriverPresenceStore) (o : EphemeralOfferStore) where
  -- The commands sent when a call of a store is over; push and realtime do not use Redis.
  unfoldable pub commands_after : Message → List Command → List Command
  commands_after (save_session s) log = (Presence.save_session p s log).1
  commands_after (delete_session id) log = (Presence.delete_session p id log).1
  commands_after list_active_sessions log = (Presence.list_active_sessions p log).1
  commands_after (save_pending_offer x) log = (Offers.save_pending_offer o x log).1
  commands_after (delete_pending_offer id) log = (Offers.delete_pending_offer o id log).1
  commands_after _ log = log

  unfoldable pub commands : List Message → List Command
  unfolding commands_after
  commands [] = []
  commands (m ∷ ms) = commands_after m (commands ms)

  abbrev pub presence_failure : Message → List Command → Option Error
  presence_failure (save_session s) log = error_of (Presence.save_session p s log).0
  presence_failure (delete_session id) log = error_of (Presence.delete_session p id log).0
  presence_failure list_active_sessions log = error_of (Presence.list_active_sessions p log).0
  presence_failure _ log = none

  abbrev pub offer_failure : Message → List Command → Option Error
  offer_failure (save_pending_offer x) log = error_of (Offers.save_pending_offer o x log).0
  offer_failure (delete_pending_offer id) log = error_of (Offers.delete_pending_offer o id log).0
  offer_failure _ log = none

  unfoldable pub redis_presence : World.DriverPresenceStore
  unfolding commands
  redis_presence = record {
    failure = λ sent m. presence_failure m (commands sent);
    active_sessions = λ sent. list_of (Presence.list_active_sessions p (commands sent)).0;
  }

  unfoldable pub redis_offers : World.EphemeralOfferStore
  unfolding commands
  redis_offers = record { failure = λ sent m. offer_failure m (commands sent) }
