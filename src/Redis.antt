-- ===== src/Redis.antt =====
-- internal/infrastructure/redisstate/redis.go. The Redis client is not of this repository: what it
-- answers is a field of `Client`, which may depend on all commands sent so far, so that keys may
-- run out and connections break at any time. `Behaves` is what Redis documents of its commands.
pub mod Presence
pub mod Offers
pub mod Replay
pub mod Listing
pub mod Search
pub mod Connection
use Prim.Native.Char.{code}
use Prim.Native.String
use Prim.Native.String.{◌++◌}
use smallworld_be.Prelude.{
  String, ◌==◌, ◌≡◌, ◌≢◌, ◌⊎◌, Bool, true, false, ◌&&◌, ◌||◌, not, Option, none, some, List, ◌∷◌,
  if◌then◌else◌, eqb,
}
use smallworld_be.Prelude.Lists.{Among}
use smallworld_be.Domain.Models.{Duration}
use smallworld_be.Domain.Errors.{Error, external, Result, ok, err}

-- The commands of the client that the stores send. An expiration of 0 is none.
pub data Command : Type 0 where
  set : String → String → Duration → Command
  get : String → Command
  del : String → Command
  scan : String → Command

-- `log` is what was sent before, the latest first. SCAN gives keys before it fails or ends; GET
-- gives a value or an error, `redis.Nil` for a key that is not there.
pub record Client : Type 0 where
  pub failure : (log : List Command) → Command → Option Error
  pub value : (log : List Command) → String → Result String
  pub keys : (log : List Command) → String → List String

-- A method of a store: its result, and the commands sent when it is over.
abbrev pub Redis : Type 0 → Type 0
Redis A = List Command → Result A × List Command

abbrev pub result : Option Error → Result (Unit {0})
result none = ok tt
result (some e) = err e

-- .Err() of a command
abbrev pub send : Client → Command → Redis (Unit {0})
send c m log = (result (c.failure log m), m ∷ log)

-- if prefix == "" { prefix = fallback }
abbrev pub or_default : String → String → String
or_default prefix fallback = if prefix == "" then fallback else prefix

-- A text without the characters that mean something in a pattern of SCAN.
abbrev pub is_plain : String → Bool
is_plain String.[] = true
is_plain (String.◌∷◌ c s) =
    not (eqb (code c) b'*' || eqb (code c) b'?' || eqb (code c) b'[' || eqb (code c) b'\\')
    && is_plain s

-- Whether a command may give a key a value or take it away.
abbrev pub Writes : Command → String → Type 0
Writes (set k v t) j = k ≡ j
Writes (del k) j = k ≡ j
Writes _ j = ⊥

-- What Redis documents, with `content log k` for what a key holds after the commands of `log`: SET
-- and DEL write when they succeed; a key that no command writes keeps its value or runs out; GET
-- gives what the key holds; and SCAN gives each key with a plain prefix that is there from its start
-- to its end.
pub record Behaves (c : Client) (content : List Command → String → Option String) : Type 0 where
  pub set_lem :
      (log : List Command) (k v : String) (t : Duration)
      → c.failure log (set k v t) ≡ none
      → content (set k v t ∷ log) k ≡ some v
  pub del_lem :
      (log : List Command) (k : String)
      → c.failure log (del k) ≡ none
      → content (del k ∷ log) k ≡ none
  pub keep :
      (log : List Command) (m : Command) (k : String)
      → ¬ Writes m k
      → (content (m ∷ log) k ≡ content log k) ⊎ (content (m ∷ log) k ≡ none)
  pub get_lem : (log : List Command) (k v : String) → c.value log k ≡ ok v → content log k ≡ some v
  pub scan_lem :
      (log : List Command) (prefix id : String)
      → is_plain prefix ≡ true
      → c.failure log (scan (prefix ++ "*")) ≡ none
      → content log (prefix ++ id) ≢ none
      → Among (prefix ++ id) (c.keys log (prefix ++ "*"))
        ⊎ (content (scan (prefix ++ "*") ∷ log) (prefix ++ id) ≡ none)
