-- ===== src/Services/Sessions/Moves.antt =====
-- Who may change a session, and what a change makes of it, by driver_session_service.go.
use smallworld_be.Prelude.{
  String, ◌==◌, ◌≡◌, ◌⊎◌, inl, inr, true, false, ◌&&◌, some, arith, eq_iff, List, Bool-cases,
  Option-cases, if◌then◌else◌,
}
use smallworld_be.Prelude.Int.{pos, leb_ℤ}
use smallworld_be.Prelude.Table.{get, put, values}
use smallworld_be.World.Calls.{presence_save, presence_delete}
use smallworld_be.Domain.States.{DriverSessionState}
use smallworld_be.Domain.Models.{DriverSession, Vehicle, IdentityVerification}
use smallworld_be.Domain.Errors.{ok, err, unauthorized}
use smallworld_be.Domain.Policies.{session_can_transition, require_transition}
use smallworld_be.World.{World}
use smallworld_be.Prelude.{◌≢◌}
use smallworld_be.Prelude.Lists.{select}
use smallworld_be.Memory.{list_vehicles}
use smallworld_be.Domain.Models.{Vehicle}
use smallworld_be.Domain.Policies.{is_verified, driver_eligible}
use smallworld_be.Services.Inputs.{
  TransitionDriverSessionStateInput, HeartbeatDriverSessionInput, StartDriverSessionInput,
}
use smallworld_be.Services.Sessions.{start_new, new_session, payload_hash}
use smallworld_be.Services.Sessions.Updates.{
  transition_state, transition_state_owned, heartbeat_owned, moved_session, get_owned, is_active,
}

-- What a change of state that succeeded found and returned.
pub record Moved (actor : String) (i : TransitionDriverSessionStateInput) (w : World)
    (d' : DriverSession) : Type 0 where
  pub session : DriverSession
  pub has_session : get i.session_id w.driver_sessions ≡ some session
  pub by_driver : session.driver_id ≡ actor
  pub allowed : session_can_transition session.state i.state ≡ true
  pub same_seats : d'.remaining_capacity ≡ session.remaining_capacity
  pub same_id : d'.id ≡ session.id
  pub becomes :
      (d'.state ≡ i.state)
      ⊎ ((i.state ≡ DriverSessionState.active)
          × (leb_ℤ session.remaining_capacity (pos 0) ≡ true)
          × (d'.state ≡ DriverSessionState.full))
  pub never_active_without_seats :
      (is_active d'.state && leb_ℤ d'.remaining_capacity (pos 0)) ≡ false
  pub written :
      (transition_state_owned actor i w).1.store
      ≡ record w.store { driver_sessions = put d'.id d' w.driver_sessions }

-- A change of a session's state succeeds only for the session's driver and along the session's
-- state machine, keeps its seats, and reaches the state asked for, except that a session with no
-- seat left becomes full where it was to become active. The session returned is the one written to
-- the sessions, and no other row of the store changes.
pub Moved-transition_state_owned :
    (actor : String) (i : TransitionDriverSessionStateInput) (w : World) (d' : DriverSession)
    → (transition_state_owned actor i w).0 ≡ ok d'
    → Moved actor i w d'
unfolding transition_state_owned transition_state require_transition moved_session presence_save
    presence_delete
Moved-transition_state_owned actor i w d' h =
    elim (Option-cases (get i.session_id w.driver_sessions)) [
      | inl e ↦ absurd (ground arith)
      | inr (d, hd) ↦ record {
        session = d;
        has_session = hd;
        by_driver = ground (arith, eq_iff d.driver_id actor);
        allowed = ground arith;
        same_seats = ground arith;
        same_id = ground arith;
        becomes = ground arith;
        never_active_without_seats = ground arith;
        written = ground arith;
      }
    ]

-- For anyone but its driver, a session that exists can be neither read, moved nor kept alive.
not_owner-unauthorized :
    (actor : String) (i : TransitionDriverSessionStateInput) (b : HeartbeatDriverSessionInput)
    (d : DriverSession) (w : World)
    → get i.session_id w.driver_sessions ≡ some d
    → b.session_id ≡ i.session_id
    → d.driver_id ≢ actor
    → (transition_state_owned actor i w ≡ (err unauthorized, w))
      × (heartbeat_owned actor b w ≡ (err unauthorized, w))
      × (get_owned actor i.session_id w ≡ (err unauthorized, w))
unfolding transition_state_owned heartbeat_owned get_owned
not_owner-unauthorized actor i b d w h e n = (
  ground (arith, eq_iff d.driver_id actor),
  ground (arith, eq_iff d.driver_id actor),
  ground (arith, eq_iff d.driver_id actor),
)

-- What a start that is no replay found and returned.
pub record Started (i : StartDriverSessionInput) (w : World) (d : DriverSession) : Type 0 where
  pub verification : IdentityVerification
  pub vehicle : Vehicle
  pub has_verification : get i.user_id w.verifications ≡ some verification
  pub has_vehicle : get i.vehicle_id w.vehicles ≡ some vehicle
  pub verified : is_verified verification ≡ true
  pub eligible :
      driver_eligible verification
        (select (λ (v : Vehicle). v.user_id == i.user_id) (values w.vehicles))
      ≡ true
  pub is_active : d.state ≡ DriverSessionState.active
  pub of_driver : d.driver_id ≡ i.user_id
  pub seats : d.remaining_capacity ≡ vehicle.capacity
  pub written : (start_new i w).1.store ≡ record w.store {
    driver_sessions = put d.id d w.driver_sessions;
    idempotency =
        if i.idempotency_key == ""
        then w.idempotency
        else put i.idempotency_key
            (record { resource_id = d.id; payload_hash = payload_hash i w })
            w.idempotency;
  }

verified_of_eligible :
    (v : IdentityVerification) (cs : List Vehicle)
    → driver_eligible v cs ≡ true
    → is_verified v ≡ true
unfolding driver_eligible
verified_of_eligible v cs h = ground arith

-- The vehicles of a user.
abbrev owned : String → World → List Vehicle
owned user w = select (λ (v : Vehicle). v.user_id == user) (values w.vehicles)

start_new-eligible :
    (i : StartDriverSessionInput) (w : World) (d : DriverSession) (v : IdentityVerification)
    → get i.user_id w.verifications ≡ some v
    → (start_new i w).0 ≡ ok d
    → driver_eligible v (owned i.user_id w) ≡ true
unfolding start_new list_vehicles
start_new-eligible i w d v hv h = elim (Bool-cases (driver_eligible v (owned i.user_id w))) [
  | inl e ↦ e
  | inr e ↦ absurd (ground arith)
]

start_new-session :
    (i : StartDriverSessionInput) (w : World) (d : DriverSession) (c : Vehicle)
    → get i.vehicle_id w.vehicles ≡ some c
    → (start_new i w).0 ≡ ok d
    → (d.state ≡ DriverSessionState.active)
      × (d.driver_id ≡ i.user_id)
      × (d.remaining_capacity ≡ c.capacity)
unfolding start_new list_vehicles new_session
start_new-session i w d c hc h = ground arith

start_new-store :
    (i : StartDriverSessionInput) (w : World) (d : DriverSession)
    → (start_new i w).0 ≡ ok d
    → (start_new i w).1.store ≡ record w.store {
      driver_sessions = put d.id d w.driver_sessions;
      idempotency =
          if i.idempotency_key == ""
          then w.idempotency
          else put i.idempotency_key
              (record { resource_id = d.id; payload_hash = payload_hash i w })
              w.idempotency;
    }
unfolding start_new list_vehicles new_session presence_save
start_new-store i w d h = elim (Bool-cases (i.idempotency_key == "")) [
  | inl e ↦ ground (arith, e)
  | inr e ↦ ground (arith, e)
]

-- A session is started only for a user who is verified and eligible as a driver, and it starts
-- active, under that user, with the capacity of the vehicle asked for. It is written to the
-- sessions, and to the key of the request if it has one, with the hash of the request; no other
-- row of the store changes.
pub Started-start_new :
    (i : StartDriverSessionInput) (w : World) (d : DriverSession)
    → (start_new i w).0 ≡ ok d
    → Started i w d
unfolding start_new list_vehicles
Started-start_new i w d h = elim (Option-cases (get i.user_id w.verifications)) [
  | inl e ↦ absurd (ground arith)
  | inr (v, hv) ↦ elim (Option-cases (get i.vehicle_id w.vehicles)) [
    | inl e ↦ absurd (ground arith)
    | inr (c, hc) ↦
        let made = start_new-session i w d c hc h in
        let eligible = start_new-eligible i w d v hv h in
        record {
          verification = v;
          vehicle = c;
          has_verification = hv;
          has_vehicle = hc;
          verified = verified_of_eligible v _ eligible;
          eligible = eligible;
          is_active = made.0;
          of_driver = made.1;
          seats = made.2;
          written = start_new-store i w d h;
        }
  ]
]
