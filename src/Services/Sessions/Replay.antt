-- ===== src/Services/Sessions/Replay.antt =====
-- Idempotency keys of `Start`, by driver_session_service.go.
use smallworld_be.Prelude.{◌==◌, ◌≡◌, false, Option, none, some, arith, eq_iff}
use smallworld_be.Prelude.Table.{get, get-put}
use smallworld_be.Domain.Models.{DriverSession}
use smallworld_be.Domain.Errors.{ok, err, idempotency_conflict}
use smallworld_be.World.{World, IdempotencyRecord}
use smallworld_be.World.Calls.{presence_save}
use smallworld_be.Memory.{list_vehicles}
use smallworld_be.Services.Inputs.{StartDriverSessionInput}
use smallworld_be.Services.Sessions.{
  start, start_new, start_or_replay, new_session, known_result, payload_hash,
}

-- What a successful start leaves in the tables of sessions and keys.
abbrev pub Remembered : StartDriverSessionInput → DriverSession → World → World → Type 0
Remembered i s w w' =
    (get s.id w'.driver_sessions ≡ some s)
    × (w'.env ≡ w.env)
    × (get i.idempotency_key w'.idempotency
        ≡ some (record { resource_id = s.id; payload_hash = payload_hash i w }))

start_new-Remembered :
    (i : StartDriverSessionInput) (w : World) (s : DriverSession)
    → (i.idempotency_key == "") ≡ false
    → (start_new i w).0 ≡ ok s
    → Remembered i s w (start_new i w).1
unfolding start_new list_vehicles new_session presence_save
start_new-Remembered i w s k h = ground (
  arith,
  get-put s.id s.id s w.driver_sessions,
  get-put i.idempotency_key i.idempotency_key
      (record { resource_id = s.id; payload_hash = payload_hash i w }) w.idempotency,
  eq_iff s.id s.id,
  eq_iff i.idempotency_key i.idempotency_key,
)

start_or_replay-Remembered :
    (known : Option IdempotencyRecord) (i : StartDriverSessionInput) (w : World) (s : DriverSession)
    → known ≡ none
    → (i.idempotency_key == "") ≡ false
    → (start_or_replay known i w).0 ≡ ok s
    → Remembered i s w (start_or_replay known i w).1
unfolding start_or_replay
start_or_replay-Remembered none i w s n k h = start_new-Remembered i w s k h
start_or_replay-Remembered (some r) i w s n k h = absurd (ground arith)

start-Remembered :
    (i : StartDriverSessionInput) (w : World) (s : DriverSession)
    → (i.idempotency_key == "") ≡ false
    → get i.idempotency_key w.idempotency ≡ none
    → (start i w).0 ≡ ok s
    → Remembered i s w (start i w).1
unfolding start
start-Remembered i w s k n h =
    start_or_replay-Remembered (known_result i.idempotency_key w) i w s (ground arith) k h

start-known :
    (i : StartDriverSessionInput) (w : World) (s : DriverSession) (r : IdempotencyRecord)
    → (i.idempotency_key == "") ≡ false
    → get i.idempotency_key w.idempotency ≡ some r
    → r.payload_hash ≡ payload_hash i w
    → get r.resource_id w.driver_sessions ≡ some s
    → start i w ≡ (ok s, w)
unfolding start start_or_replay
start-known i w s r k g e h = ground (arith, eq_iff r.payload_hash (payload_hash i w))

-- A request to start a session that carries an unused idempotency key and succeeds may be sent
-- again: right after it, the same request returns the same session and changes nothing at all.
pub start-start :
    (i : StartDriverSessionInput) (w : World) (s : DriverSession)
    → (i.idempotency_key == "") ≡ false
    → get i.idempotency_key w.idempotency ≡ none
    → (start i w).0 ≡ ok s
    → start i (start i w).1 ≡ (ok s, (start i w).1)
start-start i w s k n h =
    let (stored, same_env, remembered) = start-Remembered i w s k n h in
    start-known i (start i w).1 s _ k remembered (ground arith) stored

-- A request to start a session whose idempotency key is known with another payload is refused as a
-- conflict and changes nothing.
pub start-conflict :
    (i : StartDriverSessionInput) (w : World) (r : IdempotencyRecord)
    → (i.idempotency_key == "") ≡ false
    → get i.idempotency_key w.idempotency ≡ some r
    → (r.payload_hash == payload_hash i w) ≡ false
    → start i w ≡ (err idempotency_conflict, w)
unfolding start start_or_replay
start-conflict i w r k g e = ground arith
