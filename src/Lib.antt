-- ===== src/Lib.antt =====
-- A model of the smallworld backend, a ride-sharing service in Go, and what is shown of it.
--
-- Riders open trip demands; the matching engine finds a driver's session that can serve a demand and
-- makes the driver an offer; an accepted offer becomes a booking, takes a seat of the session and
-- matches the demand. Two background loops take back offers that run out and pause silent sessions.
--
-- The parts:
--   Domain     internal/domain: states.go, models.go, errors.go, policies.go. Enumerations are data
--              types; those that a client's request can fill have a constructor `unrecognized`.
--   World      what a method works on: the tables (`Store`), the program's surroundings (`Env`) and
--              the calls made to them. World/Exec is the monad of methods: a result beside the
--              world, since what was written before an error stays written.
--   Memory     internal/infrastructure/memory/repositories.go: the tables as association lists. Any
--              order of the entries is allowed, as Go's map visits them in any order.
--   Services   internal/application/service, one module per file: Offers (offer_service.go),
--              Bookings, Sessions and Sessions/Updates (driver_session_service.go), Demands
--              (trip_demand_service.go), Reviews, Accounts (profile, vehicle, verification and dev
--              bootstrap services), Inputs. One function per method, with all its writes and calls in
--              the source's order. Their children show what the methods promise; Offers/Partial is
--              about a repository that fails, the two Replay about requests that are sent again.
--   Acceptor   internal/infrastructure/postgres/offer_acceptor.go: acceptance in a transaction.
--   Matching   internal/matching/engine.go.
--   Pricing    internal/infrastructure/pricing/fixed.go.
--   Sweeper    internal/background/offers/sweeper.go.
--   Reconciler internal/background/presence/reconciler.go.
--   Ledger     the abstract view: a step relation on the tables. Ledger/Refines shows that every
--              operation is a sequence of its steps, the other children what steps keep.
--              Ledger/Races is about a heartbeat that another request overtakes.
--   Run        any sequence of calls of the services and background rounds.
--   Postgres   internal/infrastructure/postgres/repositories.go: the statements on the same tables,
--              and Seed, seed.go. Joins, Order, Saves and Moves compare them with the memory store.
--              Tracing and Connection are tracing.go and postgres.go: what is logged of a statement,
--              and how the pool is opened.
--   Redis      internal/infrastructure/redisstate/redis.go: Presence and Offers, the two stores over
--              a client whose answers are a parameter; Replay puts them in the place of the stores
--              of `Env`; Listing and Search show what the list of active sessions holds.
--   Routing    internal/infrastructure/routing: haversine.go, and Google, google_routes.go.
--   Realtime   internal/infrastructure/realtime/hub.go: Clients, who is kept for a user, and Delivery,
--              who gets an event.
--   Foundation internal/foundation: Ids (ids.go) and Logging (logging/logging.go).
--   Startup    cmd/api/main.go up to the start of the server, with the verifier of
--              internal/infrastructure/auth/firebase.go.
--   Text       Go's strings, strconv and the decimal print, as far as the program uses them.
--   Http       internal/interfaces/http: Errors, Messages and Server (router.go),
--              Auth (auth.go), Reads and Actions (the handlers of router.go), Routes, Logging
--              (logging.go) and Serve, a whole request. Effects shows what requests do to the tables,
--              Paths and Answers what the paths and the answers mean.
--   Tests      a small world and the runs that show that the theorems apply.
--
-- How it is modelled. Go's `int`, `time.Time` (nanoseconds) and `time.Duration` are integers without
-- a bound; the program's distances, times and fares stay far below 2 ^ 63. A `float64` is its bit
-- pattern, on which only the operations of `Floats` work. The clock, the id generator, the hash, the
-- JSON encoder, the routing provider, the pricing service, the presence store, the store of pending
-- offers and the database are fields of `Env`, of which nothing is assumed; the theorems about runs
-- ask that the ids drawn next are in no table yet. A transaction is one step, since it locks the
-- rows that it reads, and each of its statements may fail. A request is one step, and so is
-- what a round of the sweeper does about one offer: requests at once are not modelled, but for the
-- two cases of Ledger/Races. The rings of the point search (`rings`) run on fuel, the limit in meters,
-- which is enough since a step is a meter at least; the source's loop counts the meters in a float64,
-- which is exact for the whole numbers that occur.
-- The services work on the tables of Memory. In Http the JSON decoders, the token verifier and
-- net/http's redirect to a cleaned path are fields of `Server`, and in Postgres the failures of
-- statements and what columns keep of times, points and ratings are fields of `Pool`; nothing is
-- assumed of them but what a theorem says. A path is taken as it stands: percent-encoding is not
-- modelled. Rows that ORDER BY or sort.Slice leaves equal come in
-- the order of the table, on which no comparison of the two stores relies.
--
-- Not modelled: the decoding of JSON with UnmarshalJSON of the preferences, the WebSocket handshake,
-- the hash (internal/foundation/hash.go), the stubs that do nothing (internal/infrastructure/push and
-- realtime/noop.go), the constraints of the schema in db, scripts, the shutdown of the program, and
-- the wiring in internal/application/app.go. The ids of a run are a field of `Env`: that those of
-- Foundation/Ids are unused in the tables is not carried through the runs. In Redis, Routing and
-- Startup, what encoding/json, net/http, time.ParseDuration, pgx, Redis and Firebase do is a
-- parameter; `Behaves` is what a theorem asks of Redis.
pub mod Prelude
pub mod Domain
pub mod Services
pub mod World
pub mod Memory
pub mod Acceptor
pub mod Matching
pub mod Sweeper
pub mod Reconciler
pub mod Pricing
pub mod Ledger
pub mod Text
pub mod Foundation
pub mod Postgres
pub mod Redis
pub mod Routing
pub mod Realtime
pub mod Http
pub mod Run
pub mod Startup
pub mod Tests
