-- ===== src/Ledger/Refines/Sessions.antt =====
-- driver_session_service.go.
use smallworld_be.Prelude.{
  String, suc, ◌≡◌, refl, ◌⊎◌, true, List, [], ◌∷◌, arith, ◌==◌, inl, inr, Option-cases, Bool-cases,
}
use smallworld_be.Prelude.Table.{get, put, values}
use smallworld_be.Prelude.Lists.{select}
use smallworld_be.Domain.States.{DriverSessionState}
use smallworld_be.Domain.Models.{DriverSession, RideBooking}
use smallworld_be.Domain.Policies.{
  allows_driver_tracking, require_transition, session_can_transition,
}
use smallworld_be.World.{World}
use smallworld_be.World.Calls.{presence_save, presence_delete}
use smallworld_be.Services.Inputs.{HeartbeatDriverSessionInput, TransitionDriverSessionStateInput}
use smallworld_be.Services.Sessions.Updates.{
  heartbeat, heartbeat_owned, transition_state, transition_state_owned, publish_tracking,
  publish_driver_tracking_updates, beaten, moved_session,
}
use smallworld_be.Ledger.Tables.{IsKeyed}
use smallworld_be.Ledger.{Steps, Step, session_may_become}
use smallworld_be.Ledger.Refines.{Steps-of_eq, Steps-of_step}

publish_tracking-store :
    (s : DriverSession) (bs : List RideBooking) (w : World)
    → (publish_tracking s bs w).1.store ≡ w.store
unfolding publish_tracking
publish_tracking-store s [] w = refl
publish_tracking-store s (b ∷ bs) w = elim (Bool-cases (allows_driver_tracking b.state)) [
  | inl e ↦ rw (e, publish_tracking) (publish_tracking-store s bs _)
  | inr e ↦ rw (e, publish_tracking) (publish_tracking-store s bs w)
]

pub publish_driver_tracking_updates-store :
    (s : DriverSession) (w : World) → (publish_driver_tracking_updates s w).1.store ≡ w.store
unfolding publish_driver_tracking_updates
publish_driver_tracking_updates-store s w = ground (
  arith,
  publish_tracking-store s
      (select (λ (b : RideBooking). b.driver_session_id == s.id) (values w.ride_bookings)) w,
)

same_state : (d : DriverSessionState) → session_may_become d d ≡ true
unfolding session_can_transition
same_state d = ground arith

-- The world after the first writes of a heartbeat.
abbrev pub after_beat : DriverSession → World → World
after_beat d w = record w {
  ticks = suc w.ticks;
  store = record w.store { driver_sessions = put d.id d w.driver_sessions };
}

heartbeat-Steps :
    (i : HeartbeatDriverSessionInput) (w : World)
    → IsKeyed w.store
    → Steps w.store (heartbeat i w).1.store
unfolding heartbeat beaten presence_save
heartbeat-Steps i w k = elim (Option-cases (get i.session_id w.driver_sessions)) [
  | inl e ↦ Steps-of_eq (ground arith)
  | inr (d, e) ↦
      let d' = beaten d i.current_location (w.clock w.ticks) in
      let w' = (presence_save d' (after_beat d' w)).1 in
      Steps-of_step (
        Step.move_session d d' (ground (arith, k.sessions i.session_id d e))
          (record {
            same_id = refl;
            same_driver = refl;
            same_seats = refl;
            moves = same_state d.state;
          })
          (ground (arith, publish_driver_tracking_updates-store d' w')))
]

-- Either nothing is written, or the session is beaten.
heartbeat_owned_cases :
    (actor : String) (i : HeartbeatDriverSessionInput) (w : World)
    → ((heartbeat_owned actor i w).1.store ≡ w.store)
      ⊎ ((heartbeat_owned actor i w).1.store ≡ (heartbeat i w).1.store)
unfolding heartbeat_owned
heartbeat_owned_cases actor i w = ground arith

pub heartbeat_owned-Steps :
    (actor : String) (i : HeartbeatDriverSessionInput) (w : World)
    → IsKeyed w.store
    → Steps w.store (heartbeat_owned actor i w).1.store
heartbeat_owned-Steps actor i w k = elim (heartbeat_owned_cases actor i w) [
  | inl e ↦ Steps-of_eq e
  | inr e ↦ rw e (heartbeat-Steps i w k)
]

transition_state-Steps :
    (i : TransitionDriverSessionStateInput) (w : World)
    → IsKeyed w.store
    → Steps w.store (transition_state i w).1.store
unfolding transition_state moved_session presence_save presence_delete require_transition
    session_can_transition
transition_state-Steps i w k = elim (Option-cases (get i.session_id w.driver_sessions)) [
  | inl e ↦ Steps-of_eq (ground arith)
  | inr (d, e) ↦ elim (Bool-cases (session_can_transition d.state i.state)) [
    | inr no_move ↦ Steps-of_eq (ground arith)
    | inl may ↦
        let d' = moved_session d i.state (w.clock w.ticks) in
        Steps-of_step (
          Step.move_session d d' (ground (arith, k.sessions i.session_id d e)) (ground arith)
            (ground arith))
  ]
]

transition_state_owned_cases :
    (actor : String) (i : TransitionDriverSessionStateInput) (w : World)
    → ((transition_state_owned actor i w).1.store ≡ w.store)
      ⊎ ((transition_state_owned actor i w).1.store ≡ (transition_state i w).1.store)
unfolding transition_state_owned
transition_state_owned_cases actor i w = ground arith

pub transition_state_owned-Steps :
    (actor : String) (i : TransitionDriverSessionStateInput) (w : World)
    → IsKeyed w.store
    → Steps w.store (transition_state_owned actor i w).1.store
transition_state_owned-Steps actor i w k = elim (transition_state_owned_cases actor i w) [
  | inl e ↦ Steps-of_eq e
  | inr e ↦ rw e (transition_state-Steps i w k)
]
