-- ===== src/Memory/Sessions.antt =====
-- Driver sessions of internal/infrastructure/memory/repositories.go.
use smallworld_be.Prelude.{
  ℕ, String, ◌==◌, Bool, true, false, not, ◌&&◌, List, if◌then◌else◌, ltb, eqb,
}
use smallworld_be.Prelude.Int.{ltb_ℤ}
use smallworld_be.Prelude.Lists.{select}
use smallworld_be.Prelude.Sort.{sort}
use smallworld_be.Prelude.Table.{get, put, values}
use smallworld_be.Domain.States.{DriverSessionState}
use smallworld_be.Domain.Models.{DriverSession}
use smallworld_be.Domain.Errors.{ok, driver_session_not_found}
use smallworld_be.Domain.Policies.{is_active_or_full}
use smallworld_be.World.Exec.{Exec, or_fail}
use smallworld_be.Memory.Common.{set_store, first_or}

abbrev pub save_session : DriverSession → Exec (Unit {0})
save_session s w = set_store (record w.store { driver_sessions = put s.id s w.driver_sessions }) w

abbrev pub find_session : String → Exec DriverSession
find_session id w = (or_fail (get id w.driver_sessions) driver_session_not_found, w)

unfoldable pub list_active : Exec (List DriverSession)
list_active w = (ok (select (λ s. is_active_or_full s.state) (values w.driver_sessions)), w)

abbrev pub is_ended : DriverSessionState → Bool
is_ended DriverSessionState.ended = true
is_ended _ = false

unfoldable pub session_state_priority : DriverSessionState → ℕ
session_state_priority DriverSessionState.active = 0
session_state_priority DriverSessionState.full = 1
session_state_priority DriverSessionState.paused = 2
session_state_priority _ = 3

-- The order of `sort.Slice` in `FindCurrentDriverSessionByDriverID`. It leaves sessions of the same
-- state and time equal, and which of them comes first is then open: the map's order is. Here it is
-- decided by the order of the table, of which a statement on all tables allows any.
unfoldable pub session_before : DriverSession → DriverSession → Bool
unfolding session_state_priority
session_before a b =
    let left = session_state_priority a.state in
    let right = session_state_priority b.state in
    if not (eqb left right) then ltb left right else ltb_ℤ b.updated_at a.updated_at

-- The sessions of a driver that have not ended.
unfoldable pub current_candidates : String → List DriverSession → List DriverSession
current_candidates driver_id = select (λ s. s.driver_id == driver_id && not (is_ended s.state))

unfoldable pub find_current_session : String → Exec DriverSession
unfolding current_candidates session_before sort
find_current_session driver_id w = (
  first_or driver_session_not_found
      (sort session_before (current_candidates driver_id (values w.driver_sessions))),
  w,
)
