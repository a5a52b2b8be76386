-- ===== src/Ledger/Refines/Reconcile.antt =====
-- reconciler.go, with `ReconcileStaleSessions` of driver_session_service.go: the sessions that the
-- loop rewrites are still as they were listed, since each is listed once.
use smallworld_be.Prelude.{
  String, suc, ◌≡◌, refl, true, List, [], ◌∷◌, arith, inl, inr, Bool-cases, subst, some,
}
use smallworld_be.Prelude.Int.{pos, leb_ℤ, ltb_ℤ}
use smallworld_be.Prelude.Lists.{All, All-select}
use smallworld_be.Prelude.Table.{get, put, values}
use smallworld_be.Domain.Models.{Time, Duration, DriverSession}
use smallworld_be.Domain.Errors.{Result-cases}
use smallworld_be.Domain.Policies.{session_can_transition, is_active_or_full}
use smallworld_be.World.{World}
use smallworld_be.World.Calls.{presence_delete}
use smallworld_be.Memory.{list_active}
use smallworld_be.Services.Sessions.Updates.{
  paused_session, pause_session, pause_stale, reconcile_stale_sessions,
}
use smallworld_be.Reconciler.{reconcile_once, tell_drivers}
use smallworld_be.Ledger.Tables.{IsKeyed}
use smallworld_be.Ledger.Distinct.{IsDistinct, Listed, Listed-put, values-Listed, select-Listed}
use smallworld_be.Ledger.{Steps, Step, Steps-trans, SessionMove}
use smallworld_be.Ledger.Refines.{Steps-of_eq, Steps-of_step}

abbrev id_of : DriverSession → String
id_of d = d.id

abbrev AllOpen : List DriverSession → Type 0
AllOpen ss = All (λ (d : DriverSession). is_active_or_full d.state ≡ true) ss

pause_session-store :
    (s : DriverSession) (w : World)
    → (pause_session s w).1.store ≡ record w.store {
      driver_sessions = put s.id (paused_session s (w.clock w.ticks)) w.driver_sessions;
    }
unfolding pause_session presence_delete
pause_session-store s w = ground arith

paused-SessionMove :
    (s : DriverSession) (t : Time)
    → is_active_or_full s.state ≡ true
    → SessionMove s (paused_session s t)
unfolding paused_session session_can_transition
paused-SessionMove s t a = record {
  same_id = refl;
  same_driver = refl;
  same_seats = refl;
  moves = ground arith;
}

pause_session-Steps :
    (s : DriverSession) (w : World)
    → get s.id w.driver_sessions ≡ some s
    → is_active_or_full s.state ≡ true
    → Steps w.store (pause_session s w).1.store
pause_session-Steps s w g a = Steps-of_step (
    Step.move_session s (paused_session s (w.clock w.ticks)) g (paused-SessionMove s _ a)
      (pause_session-store s w))

-- What is left to visit is listed in the store that a round leaves.
pause_session-Listed :
    (s : DriverSession) (ss : List DriverSession) (w : World)
    → Listed id_of w.driver_sessions (s ∷ ss)
    → Listed id_of (pause_session s w).1.driver_sessions ss
pause_session-Listed s ss w l =
    let at_put =
      Listed-put id_of s.id (paused_session s (w.clock w.ticks)) w.driver_sessions ss l.1 l.2 in
    let e : put s.id (paused_session s (w.clock w.ticks)) w.driver_sessions
        ≡ (pause_session s w).1.driver_sessions =
      ground (arith, pause_session-store s w) in
    subst (λ m. Listed id_of m ss) e at_put

pause_stale-Steps :
    (cutoff : Time) (ss : List DriverSession) (w : World)
    → Listed id_of w.driver_sessions ss
    → AllOpen ss
    → Steps w.store (pause_stale cutoff ss w).1.store
unfolding pause_stale
pause_stale-Steps cutoff [] w l a = Steps-of_eq refl
pause_stale-Steps cutoff (s ∷ ss) w l a = elim (Bool-cases (ltb_ℤ s.last_heartbeat_at cutoff)) [
  | inr e ↦ rw e (pause_stale-Steps cutoff ss w l.2 a.1)
  | inl e ↦
      let first = pause_session-Steps s w l.0 a.0 in
      let w' = (pause_session s w).1 in
      let rest = pause_stale-Steps cutoff ss w' (pause_session-Listed s ss w l) a.1 in
      elim (Result-cases (pause_session s w).0) [
        | inr (x, h) ↦ rw (e, h) first
        | inl (p, h) ↦ elim (Result-cases (pause_stale cutoff ss w').0) [
          | inr (x, k) ↦ rw (e, h, k) (Steps-trans first rest)
          | inl (ps, k) ↦ rw (e, h, k) (Steps-trans first rest)
        ]
      ]
]

reconcile_stale_sessions-Steps :
    (max_staleness : Duration) (w : World)
    → IsKeyed w.store
    → IsDistinct w.driver_sessions
    → Steps w.store (reconcile_stale_sessions max_staleness w).1.store
unfolding reconcile_stale_sessions list_active
reconcile_stale_sessions-Steps m w k d = elim (Bool-cases (leb_ℤ m (pos 0))) [
  | inl e ↦ rw e (Steps-of_eq refl)
  | inr e ↦ rw e (
      pause_stale-Steps _ _ (record w { ticks = suc w.ticks })
        (select-Listed id_of (λ (s : DriverSession). is_active_or_full s.state) _ _
          (values-Listed id_of w.driver_sessions d k.sessions))
        (All-select (λ (s : DriverSession). is_active_or_full s.state) (values w.driver_sessions)))
]

tell_drivers-store : (ss : List DriverSession) (w : World) → (tell_drivers ss w).1.store ≡ w.store
unfolding tell_drivers
tell_drivers-store [] w = refl
tell_drivers-store (s ∷ ss) w = elim (Bool-cases w.has_realtime) [
  | inl e ↦ rw (e, tell_drivers) (tell_drivers-store ss _)
  | inr e ↦ simp (e, tell_drivers) (tell_drivers-store ss w)
]

pub reconcile_once-Steps :
    (max_staleness : Duration) (w : World)
    → IsKeyed w.store
    → IsDistinct w.driver_sessions
    → Steps w.store (reconcile_once max_staleness w).1.store
unfolding reconcile_once
reconcile_once-Steps m w k d =
    let paused = reconcile_stale_sessions-Steps m w k d in
    elim (Result-cases (reconcile_stale_sessions m w).0) [
      | inr (e, h) ↦ rw h paused
      | inl (ss, h) ↦ rw (h, tell_drivers-store ss (reconcile_stale_sessions m w).1) paused
    ]
