-- ===== src/Realtime.antt =====
-- internal/infrastructure/realtime/hub.go: which connections get the events for a user. A method
-- is one step here; the hub's mutex makes `register` and `unregister` so, and a connection that
-- comes or goes while an event is sent is not modelled. What a connection reads is thrown away.
pub mod Clients
pub mod Delivery
use smallworld_be.Prelude.{
  ℕ, String, ◌≡◌, Bool, true, false, not, Option, none, some, List, [], ◌∷◌, if◌then◌else◌, eqb,
}
use smallworld_be.Prelude.Lists.{select}
use smallworld_be.Prelude.Table.{Table, get, put, delete}
use smallworld_be.World.{Payload}

pub record Event : Type 0 where
  pub type : String
  pub payload : Payload

-- `id` stands for the address of the client, which tells it from all others.
pub record Client : Type 0 where
  pub id : ℕ
  pub user_id : String

-- `Hub.clients`: the set of a user's clients, as a list. Go's `range` over the set has no fixed
-- order; the order of the list is one that it may take.
abbrev pub Hub : Type 0
Hub = Table (List Client)

-- h.clients[userID], which is empty for a user that is not there
abbrev pub or_none : Option (List Client) → List Client
or_none none = []
or_none (some cs) = cs

unfoldable pub clients_of : String → Hub → List Client
clients_of user h = or_none (get user h)

abbrev pub without : Client → List Client → List Client
without c = select (λ d. not (eqb d.id c.id))

-- A client that is in the set already stays there once.
unfoldable pub register : Client → Hub → Hub
unfolding clients_of
register c h = put c.user_id (c ∷ without c (clients_of c.user_id h)) h

abbrev pub store_clients : String → List Client → Hub → Hub
store_clients user [] h = delete user h
store_clients user (c ∷ cs) h = put user (c ∷ cs) h

abbrev unregister_from : Client → Option (List Client) → Hub → Hub
unregister_from c none h = h
unregister_from c (some cs) h = store_clients c.user_id (without c cs) h

unfoldable pub unregister : Client → Hub → Hub
unregister c h = unregister_from c (get c.user_id h) h

-- What a publication does: the hub that it leaves, the clients that it tried to send the event to,
-- in the order of the set, and those that it closed.
pub record Publication : Type 0 where
  pub hub : Hub
  pub sent : List (ℕ × Event)
  pub closed : List ℕ

-- The loop over the copied clients; `fails` says whose connection is broken.
unfoldable pub send_all : (ℕ → Bool) → Event → List Client → Hub → Publication
unfolding unregister
send_all fails event [] h = record { hub = h; sent = []; closed = [] }
send_all fails event (c ∷ cs) h =
    let broken = send_all fails event cs (unregister c h) in
    let fine = send_all fails event cs h in
    if fails c.id
    then record {
      hub = broken.hub;
      sent = (c.id, event) ∷ broken.sent;
      closed = c.id ∷ broken.closed;
    }
    else record fine { sent = (c.id, event) ∷ fine.sent }

unfoldable pub publish_to_user : (ℕ → Bool) → String → String → Payload → Hub → Publication
unfolding clients_of send_all
publish_to_user fails user type payload h =
    send_all fails (record { type = type; payload = payload }) (clients_of user h) h
