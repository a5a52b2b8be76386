-- ===== src/Redis/Presence.antt =====
-- `DriverPresenceStore` of internal/infrastructure/redisstate/redis.go.
use Prim.Native.String.{◌++◌}
use smallworld_be.Prelude.{String, Bool, Option, none, some, List, [], ◌∷◌, if◌then◌else◌}
use smallworld_be.Prelude.Int.{pos, leb_ℤ}
use smallworld_be.Domain.Models.{Duration, DriverSession}
use smallworld_be.Domain.Errors.{wrap, Error, Result, ok, err}
use smallworld_be.Domain.Policies.{is_active_or_full}
use smallworld_be.Redis.{Command, set, get, del, scan, Client, Redis, send, or_default}

-- json.Marshal and json.Unmarshal on a session, beside the fields of the source.
pub record DriverPresenceStore : Type 0 where
  pub client : Client
  pub key_prefix : String
  pub ttl : Duration
  pub marshal : DriverSession → Result String
  pub unmarshal : String → Result DriverSession

unfoldable pub driver_key : DriverPresenceStore → String → String
driver_key s id = or_default s.key_prefix "smallworld:driver_session:" ++ id

-- if expiration <= 0 { expiration = 0 }
unfoldable pub expiration : Duration → Duration
expiration ttl = if leb_ℤ ttl (pos 0) then pos 0 else ttl

abbrev store_payload : DriverPresenceStore → String → Result String → Redis (Unit {0})
store_payload s id (err e) log = (err (wrap "marshal driver session presence" e), log)
store_payload s id (ok payload) log =
    send s.client (set (driver_key s id) payload (expiration s.ttl)) log

unfoldable pub save_session : DriverPresenceStore → DriverSession → Redis (Unit {0})
unfolding driver_key expiration
save_session s session log = store_payload s session.id (s.marshal session) log

unfoldable pub delete_session : DriverPresenceStore → String → Redis (Unit {0})
unfolding driver_key
delete_session s id log = send s.client (del (driver_key s id)) log

-- The value of one key as a session, or the error that ends the loop.
abbrev pub decode : DriverPresenceStore → Result String → Result DriverSession
decode s (err e) = err (wrap "get driver session presence" e)
decode s (ok value) = elim (s.unmarshal value) [
  | ok session ↦ ok session
  | err e ↦ err (wrap "unmarshal driver session presence" e)
]

abbrev pub cons_if :
    Bool → DriverSession → Result (List DriverSession) → Result (List DriverSession)
cons_if listed s (ok ss) = ok (if listed then s ∷ ss else ss)
cons_if listed s (err e) = err e

-- if err := iter.Err(); err != nil { … }
abbrev scan_end : Option Error → Result (List DriverSession)
scan_end none = ok []
scan_end (some e) = err (wrap "scan driver session presence" e)

-- The rest of the loop is left out when a key cannot be read.
abbrev pub read_on :
    Result DriverSession
    → Result (List DriverSession) × List Command
    → List Command
    → Result (List DriverSession) × List Command
read_on (ok s) rest log = (cons_if (is_active_or_full s.state) s rest.0, rest.1)
read_on (err e) rest log = (err e, log)

-- The loop over the keys that the scan gives. The scan's own error is looked at when the keys end.
unfoldable pub read_sessions :
    DriverPresenceStore → Option Error → List String → Redis (List DriverSession)
read_sessions s failure [] log = (scan_end failure, log)
read_sessions s failure (k ∷ ks) log =
    let rest = read_sessions s failure ks (get k ∷ log) in
    read_on (decode s (s.client.value log k)) rest (get k ∷ log)

unfoldable pub list_active_sessions : DriverPresenceStore → Redis (List DriverSession)
unfolding driver_key read_sessions
list_active_sessions s log =
    let pattern' = driver_key s "*" in
    read_sessions s (s.client.failure log (scan pattern')) (s.client.keys log pattern')
      (scan pattern' ∷ log)
