-- ===== src/Postgres/Sessions.antt =====
-- DriverSessions of internal/infrastructure/postgres/repositories.go. `scanDriverSession` is the
-- reading of one row, whose errors all have its name.
use smallworld_be.Prelude.{ℕ, String, ◌==◌, Bool, true, false, ◌&&◌, List, if◌then◌else◌, ltb, eqb}
use smallworld_be.Prelude.Int.{ltb_ℤ}
use smallworld_be.Prelude.Lists.{select}
use smallworld_be.Prelude.Sort.{sort}
use smallworld_be.Prelude.Table.{get, values}
use smallworld_be.Domain.States.{DriverSessionState}
use smallworld_be.Domain.Models.{DriverSession}
use smallworld_be.Domain.Errors.{ok, driver_session_not_found}
use smallworld_be.World.Exec.{Exec, or_fail}
use smallworld_be.Memory.{set_store, first_or}
use smallworld_be.Postgres.{Pool, statement, upsert}

unfoldable pub session_row : Pool → DriverSession → DriverSession
session_row p s = record s {
  origin = p.point s.origin;
  destination = p.point s.destination;
  current_location = p.point s.current_location;
  last_heartbeat_at = p.time s.last_heartbeat_at;
  created_at = p.time s.created_at;
  updated_at = p.time s.updated_at;
}

unfoldable pub save_session : Pool → DriverSession → Exec (Unit {0})
unfolding session_row upsert statement
save_session p s = statement p "save driver session" λ w.
    set_store
      (record w.store {
        driver_sessions =
            upsert (λ old new. record new { created_at = old.created_at }) s.id (session_row p s)
              w.driver_sessions;
      })
      w

unfoldable pub find_session : Pool → String → Exec DriverSession
unfolding statement
find_session p id =
    statement p "scan driver session"
      λ w. (or_fail (get id w.driver_sessions) driver_session_not_found, w)

-- state IN ('active', 'full')
unfoldable pub in_service : DriverSessionState → Bool
in_service DriverSessionState.active = true
in_service DriverSessionState.full = true
in_service _ = false

-- ORDER BY updated_at DESC
unfoldable pub session_updated_before : DriverSession → DriverSession → Bool
session_updated_before a b = ltb_ℤ b.updated_at a.updated_at

unfoldable pub list_active : Pool → Exec (List DriverSession)
unfolding in_service session_updated_before sort statement
list_active p = statement p "list active driver sessions" λ w. (
  ok (sort session_updated_before (select (λ s. in_service s.state) (values w.driver_sessions))),
  w,
)

-- state IN ('active', 'full', 'paused')
unfoldable pub is_current : DriverSessionState → Bool
is_current DriverSessionState.active = true
is_current DriverSessionState.full = true
is_current DriverSessionState.paused = true
is_current _ = false

-- CASE state WHEN 'active' THEN 0 … END
unfoldable pub state_rank : DriverSessionState → ℕ
state_rank DriverSessionState.active = 0
state_rank DriverSessionState.full = 1
state_rank DriverSessionState.paused = 2
state_rank _ = 3

-- ORDER BY CASE state … END, updated_at DESC. Rows that it leaves equal may come in any order, here
-- in the table's, which need not be that of another store.
unfoldable pub current_before : DriverSession → DriverSession → Bool
unfolding state_rank
current_before a b =
    if eqb (state_rank a.state) (state_rank b.state)
    then ltb_ℤ b.updated_at a.updated_at
    else ltb (state_rank a.state) (state_rank b.state)

-- LIMIT 1
unfoldable pub find_current_session : Pool → String → Exec DriverSession
unfolding is_current current_before sort statement
find_current_session p driver_id = statement p "scan driver session" λ w. (
  first_or driver_session_not_found (
      sort current_before
        (select (λ s. s.driver_id == driver_id && is_current s.state) (values w.driver_sessions))),
  w,
)
