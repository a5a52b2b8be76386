-- ===== src/Tests/Presence.antt =====
-- A Redis that forgets no key, and a heartbeat beside it.
use Prim.Native.String.{◌++◌}
use smallworld_be.Prelude.{
  String, ◌==◌, ◌≡◌, ◌≢◌, refl, ◌⊎◌, inl, inr, Option, none, some, List, [], ◌∷◌, arith, eq_iff,
  if◌then◌else◌, Bool-cases, sym, ◌∙◌,
}
use smallworld_be.Prelude.Int.{pos}
use smallworld_be.Prelude.Lists.{Among}
use smallworld_be.Prelude.Table.{get, put, values}
use smallworld_be.Domain.Models.{DriverSession}
use smallworld_be.Domain.Errors.{ok, err, external}
use smallworld_be.World.{World}
use smallworld_be.World.Exec.{or_fail}
use smallworld_be.Services.Inputs.{HeartbeatDriverSessionInput}
use smallworld_be.Services.Sessions.Updates.{heartbeat, beaten, publish_driver_tracking_updates}
use smallworld_be.Domain.Policies.{allows_driver_tracking}
use smallworld_be.World.Calls.{presence_save}
use smallworld_be.Redis.{Command, Client, Behaves, Writes}
use smallworld_be.Redis.Presence.{
  save_session, DriverPresenceStore, driver_key, list_active_sessions,
}
use smallworld_be.Redis.Offers.{EphemeralOfferStore}
use smallworld_be.Redis.Replay.{commands, redis_presence}
use smallworld_be.Redis.Search.{Candidate, heartbeat-Candidate}
use smallworld_be.Tests.Fixtures.{world, session, spot, env}

content : List Command → String → Option String
content [] k = none
content (Command.set j v t ∷ log) k = if j == k then some v else content log k
content (Command.del j ∷ log) k = if j == k then none else content log k
content (Command.get j ∷ log) k = content log k
content (Command.scan j ∷ log) k = content log k

-- All keys of this Redis have the prefix that is asked for.
keys : List Command → List String
keys [] = []
keys (Command.set j v t ∷ log) = j ∷ keys log
keys (Command.del j ∷ log) = keys log
keys (Command.get j ∷ log) = keys log
keys (Command.scan j ∷ log) = keys log

abbrev client : Client
unfolding content keys
client = record {
  failure = λ log m. none;
  value = λ log k. or_fail (content log k) (external "redis: nil");
  keys = λ log pattern'. keys log;
}

keys-Among : (log : List Command) (k : String) → content log k ≢ none → Among k (keys log)
unfolding content keys
keys-Among [] k h = absurd (h refl)
keys-Among (Command.set j v t ∷ log) k h = elim (Bool-cases (j == k)) [
  | inl e ↦ inl (sym ((eq_iff j k).0 e))
  | inr e ↦ inr (keys-Among log k (rw e at h))
]
keys-Among (Command.del j ∷ log) k h = elim (Bool-cases (j == k)) [
  | inl e ↦ absurd (h (rw e refl))
  | inr e ↦ keys-Among log k (rw e at h)
]
keys-Among (Command.get j ∷ log) k h = keys-Among log k h
keys-Among (Command.scan j ∷ log) k h = keys-Among log k h

keeps :
    (log : List Command) (m : Command) (k : String)
    → ¬ Writes m k
    → (content (m ∷ log) k ≡ content log k) ⊎ (content (m ∷ log) k ≡ none)
unfolding content
keeps log (Command.set j v t) k h = ground (arith, eq_iff j k)
keeps log (Command.del j) k h = ground (arith, eq_iff j k)
keeps log (Command.get j) k h = inl refl
keeps log (Command.scan j) k h = inl refl

client-Behaves : Behaves client content
unfolding content client
client-Behaves = record {
  set_lem = λ log k v t h. ground (arith, eq_iff k k);
  del_lem = λ log k h. ground (arith, eq_iff k k);
  keep = keeps;
  get_lem = λ log k v h. ground arith;
  scan_lem = λ log prefix id p h n. inl (keys-Among log (prefix ++ id) n);
}

abbrev beat : DriverSession
beat = record session { last_heartbeat_at = pos 1_000; updated_at = pos 1_000 }

abbrev presence : DriverPresenceStore
unfolding client
presence = record {
  client = client;
  key_prefix = "";
  ttl = pos 30_000_000_000;
  marshal = λ s. ok s.id;
  unmarshal = λ v. if v == "s1" then ok beat else err (external "no json");
}

abbrev offers : EphemeralOfferStore
unfolding client
offers = record {
  client = client;
  key_prefix = "";
  ttl = pos 120_000_000_000;
  marshal = λ s. ok s.id;
}

abbrev driving : World
unfolding presence offers redis_presence
driving = record world { env = record env { presence = some (redis_presence presence offers) } }

abbrev beating : HeartbeatDriverSessionInput
beating = record { session_id = "s1"; current_location = spot }

beat_done : (heartbeat beating driving).0 ≡ ok beat
unfolding heartbeat beaten get put values driving redis_presence presence presence_save save_session
    publish_driver_tracking_updates allows_driver_tracking
beat_done = refl

after : List Command
unfolding driving offers commands heartbeat
after = commands presence offers (heartbeat beating driving).1.outbox

still_there : content (list_active_sessions presence after).1 (driver_key presence "s1") ≡ some "s1"
unfolding after content list_active_sessions driver_key commands offers heartbeat beaten get put
    values driving redis_presence presence presence_save save_session
    publish_driver_tracking_updates allows_driver_tracking
still_there = refl

heartbeat-Candidate_example : Candidate beat (heartbeat beating driving).1
unfolding driving presence after
heartbeat-Candidate_example =
    heartbeat-Candidate presence offers content beating beat driving client-Behaves refl
      (λ v h. ground (arith, eq_iff v "s1")) refl beat_done refl
      (λ gone. cc (sym still_there ∙ gone))
