-- ===== src/Redis/Search.antt =====
-- The list of active sessions in Redis, as the search for a driver in trip_demand_service.go uses
-- it: what a driver's heartbeat stores there is found by the next demand.
use smallworld_be.Prelude.{
  String, ◌==◌, ◌≡◌, ◌≢◌, refl, ap, subst, ◌∙◌, inl, inr, true, Option, none, some, List, [], ◌∷◌,
  arith, Bool-cases, eq_iff, Option-cases,
}
use smallworld_be.Prelude.Lists.{select, Among, select-Among}
use smallworld_be.Prelude.Table.{get, values, values-Among, get-put}
use smallworld_be.Domain.Models.{DriverSession, RideBooking}
use smallworld_be.Domain.Errors.{ok, Result-cases}
use smallworld_be.Domain.Policies.{is_active_or_full, allows_driver_tracking}
use smallworld_be.World.{World, Store, Env}
use smallworld_be.World.Calls.{presence_save}
use smallworld_be.Memory.{list_active}
use smallworld_be.Services.Demands.{list_candidate_sessions}
use smallworld_be.Services.Inputs.{HeartbeatDriverSessionInput}
use smallworld_be.Services.Sessions.Updates.{
  heartbeat, publish_tracking, publish_driver_tracking_updates, beaten,
}
use smallworld_be.World.Frame.{presence_save-Same}
use smallworld_be.Ledger.Refines.Sessions.{after_beat, publish_driver_tracking_updates-store}
use smallworld_be.Redis.{Command, set, Behaves, is_plain, or_default}
use smallworld_be.Redis.Presence.{
  DriverPresenceStore, driver_key, expiration, save_session, list_active_sessions,
}
use smallworld_be.Redis.Offers.{EphemeralOfferStore}
use smallworld_be.Redis.Replay.{commands, commands_after, redis_presence}
use smallworld_be.Redis.Listing.{found-list_active_sessions}

abbrev pub Candidate : DriverSession → World → Type 0
Candidate x w = (xs : List DriverSession) × ((list_candidate_sessions w).0 ≡ ok xs) × Among x xs

module _ (p : DriverPresenceStore) (o : EphemeralOfferStore) where
  -- Where Redis has nothing to offer, the search takes the stored sessions.
  fallback_Candidate :
      (w : World) (x : DriverSession)
      → w.presence ≡ some (redis_presence p o)
      → get x.id w.driver_sessions ≡ some x
      → is_active_or_full x.state ≡ true
      → ((xs : List DriverSession)
          → (list_active_sessions p (commands p o w.outbox)).0 ≡ ok xs
          → Among x xs)
      → Candidate x w
  unfolding list_candidate_sessions list_active redis_presence
  fallback_Candidate w x e g a f =
      let stored =
        select-Among (λ s. is_active_or_full s.state) x (values w.driver_sessions) a
          (values-Among x.id x w.driver_sessions g) in
      elim (Result-cases (list_active_sessions p (commands p o w.outbox)).0) [
        | inl ([], r) ↦ absurd (f [] r)
        | inl (y ∷ ys, r) ↦ (y ∷ ys, rw (e, r) refl, f (y ∷ ys) r)
        | inr (z, r) ↦ (_, rw (e, r) refl, stored)
      ]

  -- Events of the hub send nothing to Redis.
  publish_tracking-commands :
      (s : DriverSession) (bs : List RideBooking) (w : World)
      → commands p o (publish_tracking s bs w).1.outbox ≡ commands p o w.outbox
  unfolding publish_tracking commands
  publish_tracking-commands s [] w = refl
  publish_tracking-commands s (b ∷ bs) w = elim (Bool-cases (allows_driver_tracking b.state)) [
    | inl e ↦ rw (e, publish_tracking) (publish_tracking-commands s bs _)
    | inr e ↦ rw (e, publish_tracking) (publish_tracking-commands s bs w)
  ]

publish_tracking-env :
    (s : DriverSession) (bs : List RideBooking) (w : World)
    → (publish_tracking s bs w).1.env ≡ w.env
unfolding publish_tracking
publish_tracking-env s [] w = refl
publish_tracking-env s (b ∷ bs) w = elim (Bool-cases (allows_driver_tracking b.state)) [
  | inl e ↦ rw (e, publish_tracking) (publish_tracking-env s bs _)
  | inr e ↦ rw (e, publish_tracking) (publish_tracking-env s bs w)
]

publish_tracking-ok :
    (s : DriverSession) (bs : List RideBooking) (w : World) → (publish_tracking s bs w).0 ≡ ok tt
unfolding publish_tracking
publish_tracking-ok s [] w = refl
publish_tracking-ok s (b ∷ bs) w = elim (Bool-cases (allows_driver_tracking b.state)) [
  | inl e ↦ rw (e, publish_tracking) (publish_tracking-ok s bs _)
  | inr e ↦ rw (e, publish_tracking) (publish_tracking-ok s bs w)
]

abbrev bookings_of : DriverSession → World → List RideBooking
bookings_of s w = select (λ (b : RideBooking). b.driver_session_id == s.id) (values w.ride_bookings)

-- What a heartbeat that succeeded has made of the world.
record Beaten (p : DriverPresenceStore) (o : EphemeralOfferStore) (w w' : World) (x : DriverSession)
    : Type 0 where
  payload : String
  marshaled : p.marshal x ≡ ok payload
  same_env : w'.env ≡ w.env
  stored : get x.id w'.driver_sessions ≡ some x
  written :
      p.client.failure (commands p o w.outbox) (set (driver_key p x.id) payload (expiration p.ttl))
      ≡ none
  sent :
      commands p o w'.outbox
      ≡ set (driver_key p x.id) payload (expiration p.ttl) ∷ commands p o w.outbox

presence_saved :
    (p : DriverPresenceStore) (o : EphemeralOfferStore) (x : DriverSession) (w : World)
    → w.presence ≡ some (redis_presence p o)
    → (presence_save x w).0 ≡ ok tt
    → (payload : String) × (p.marshal x ≡ ok payload)
      × (p.client.failure
            (commands p o w.outbox)
            (set (driver_key p x.id) payload (expiration p.ttl))
          ≡ none)
      × (commands p o (presence_save x w).1.outbox
          ≡ set (driver_key p x.id) payload (expiration p.ttl) ∷ commands p o w.outbox)
unfolding presence_save redis_presence save_session commands commands_after
presence_saved p o x w e h = elim (Result-cases (p.marshal x)) [
  | inl (payload, m) ↦ (payload, m, ground arith, ground arith)
  | inr (z, m) ↦ absurd (ground arith)
]

updates-env : (s : DriverSession) (w : World) → (publish_driver_tracking_updates s w).1.env ≡ w.env
unfolding publish_driver_tracking_updates
updates-env s w = ground (arith, publish_tracking-env s (bookings_of s w) w)

updates-commands :
    (p : DriverPresenceStore) (o : EphemeralOfferStore) (s : DriverSession) (w : World)
    → commands p o (publish_driver_tracking_updates s w).1.outbox ≡ commands p o w.outbox
unfolding publish_driver_tracking_updates
updates-commands p o s w = ground (arith, publish_tracking-commands p o s (bookings_of s w) w)

updates-ok : (s : DriverSession) (w : World) → (publish_driver_tracking_updates s w).0 ≡ ok tt
unfolding publish_driver_tracking_updates
updates-ok s w = ground (arith, publish_tracking-ok s (bookings_of s w) w)

Beaten-heartbeat :
    (p : DriverPresenceStore) (o : EphemeralOfferStore) (i : HeartbeatDriverSessionInput)
    (x : DriverSession) (w : World)
    → w.presence ≡ some (redis_presence p o)
    → (heartbeat i w).0 ≡ ok x
    → Beaten p o w (heartbeat i w).1 x
unfolding heartbeat beaten
Beaten-heartbeat p o i x w e h = elim (Option-cases (get i.session_id w.driver_sessions)) [
  | inl n ↦ absurd (ground arith)
  | inr (d, hd) ↦
      let d' = beaten d i.current_location (w.clock w.ticks) in
      let u = after_beat d' w in
      elim (Result-cases (presence_save d' u).0) [
        | inr (z, r) ↦ absurd (ground arith)
        | inl (y, r) ↦
            let (payload, m, f, c) = presence_saved p o d' u e r in
            let v = (presence_save d' u).1 in
            let t = (publish_driver_tracking_updates d' v).1 in
            let same : d' ≡ x = ground (arith, updates-ok d' v) in
            let end : t ≡ (heartbeat i w).1 = ground (arith, updates-ok d' v) in
            let store : t.store ≡ u.store =
              publish_driver_tracking_updates-store d' v ∙ (presence_save-Same d' u).same_store in
            subst (λ z. Beaten p o w z x) end
              (subst (Beaten p o w t) same (record {
                payload = payload;
                marshaled = m;
                same_env = updates-env d' v ∙ (presence_save-Same d' u).same_env;
                stored =
                    ap (λ (z : Store). get d'.id z.driver_sessions) store
                    ∙ ground (arith, get-put d'.id d'.id d' w.driver_sessions, eq_iff d'.id d'.id);
                written = f;
                sent = updates-commands p o d' v ∙ c;
              }))
      ]
]

-- After a heartbeat that succeeds, the search of the next demand finds the session as the heartbeat
-- left it, whether the list of Redis can be read or not, if the session is active or full and its
-- key has not run out before the list is read. Redis has to behave as it documents, the prefix of
-- the keys to be plain, and decoding to give back the session that was encoded.
pub heartbeat-Candidate :
    (p : DriverPresenceStore) (o : EphemeralOfferStore)
    (content : List Command → String → Option String) (i : HeartbeatDriverSessionInput)
    (x : DriverSession) (w : World)
    → Behaves p.client content
    → is_plain (or_default p.key_prefix "smallworld:driver_session:") ≡ true
    → ((v : String) → p.marshal x ≡ ok v → p.unmarshal v ≡ ok x)
    → w.presence ≡ some (redis_presence p o)
    → (heartbeat i w).0 ≡ ok x
    → is_active_or_full x.state ≡ true
    → content (list_active_sessions p (commands p o (heartbeat i w).1.outbox)).1 (driver_key p x.id)
      ≢ none
    → Candidate x (heartbeat i w).1
heartbeat-Candidate p o content i x w b plain back e h a n =
    let w' = (heartbeat i w).1 in
    let s = Beaten-heartbeat p o i x w e h in
    let set_done =
      b.set_lem (commands p o w.outbox) (driver_key p x.id) s.payload (expiration p.ttl)
        s.written in
    let there : content (commands p o w'.outbox) (driver_key p x.id) ≡ some s.payload =
      ap (λ l. content l (driver_key p x.id)) s.sent ∙ set_done in
    fallback_Candidate p o w' x (ap (λ (z : Env). z.presence) s.same_env ∙ e) s.stored a (λ xs r.
      found-list_active_sessions p content b (commands p o w'.outbox) x.id s.payload x xs plain r
        there (back s.payload s.marshaled) a n)
