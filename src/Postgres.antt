-- ===== src/Postgres.antt =====
-- internal/infrastructure/postgres/repositories.go: the statements on the tables, which are keyed
-- by the primary keys of db/migrations. A row holds what its columns keep of an entity.
-- What the database itself does is a field of `Pool`: which statements it refuses (by a constraint
-- or for any other cause) and what a column keeps of a time, a point or a rating.
pub mod Accounts
pub mod Sessions
pub mod Demands
pub mod Offers
pub mod Bookings
pub mod Joins
pub mod Order
pub mod Saves
pub mod Moves
pub mod Seed
pub mod Tracing
pub mod Connection
use Prim.Native.String.{◌++◌ as str_append}
use smallworld_be.Prelude.{String, Option, none, some}
use smallworld_be.Prelude.Table.{Table, get, put}
use smallworld_be.Domain.Models.{Time, Float64, Location}
use smallworld_be.Domain.Errors.{Result, err, external}
use smallworld_be.World.{World}
use smallworld_be.World.Exec.{Exec}

-- `failure` is the text of the error with which a statement of that name ends, if it fails.
-- `time` is a column of type TIMESTAMPTZ, `point` a GEOGRAPHY(POINT, 4326), `rating` a NUMERIC(3,2).
pub record Pool : Type 0 where
  pub failure : String → World → Option String
  pub time : Time → Time
  pub point : Location → Location
  pub rating : Float64 → Float64

-- if err != nil { return fmt.Errorf("<name>: %w", err) }
abbrev unless {ℓ} : {A : Type ℓ} → Option String → String → Exec A → Exec A
unless none name run w = run w
unless (some text) name run w = (err (external (str_append name (str_append ": " text))), w)

unfoldable pub statement {ℓ} : {A : Type ℓ} → Pool → String → Exec A → Exec A
statement p name run w = unless (p.failure name w) name run w

-- The row after ON CONFLICT (…) DO UPDATE: `keep` gives what stays of the old row.
abbrev pub updated {ℓ} : {A : Type ℓ} → (A → A → A) → Option A → A → A
updated keep none new = new
updated keep (some old) new = keep old new

-- INSERT INTO … ON CONFLICT (…) DO UPDATE SET …
unfoldable pub upsert {ℓ} : {A : Type ℓ} → (A → A → A) → String → A → Table A → Table A
upsert keep id new table = put id (updated keep (get id table) new) table
