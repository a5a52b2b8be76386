-- ===== src/Startup/Guarded.antt =====
-- What a program that serves was started with.
use smallworld_be.Prelude.{
  String, ◌==◌, ◌≡◌, ◌≢◌, ◌⊎◌, ◌↔◌, inl, inr, refl, subst, Bool, true, false, not, ◌&&◌, Option,
  none, some, Bool-cases, Option-cases, eq_iff, arith,
}
use smallworld_be.Domain.Errors.{Error, Result, ok, err, Result-cases}
use smallworld_be.World.{RoutingProvider}
use smallworld_be.Text.{trim_space}
use smallworld_be.Http.Messages.{AuthIdentity}
use smallworld_be.Foundation.Logging.{Parsed, Config, valid, load_config_from_env}
use smallworld_be.Postgres.Connection.{
  PgxPool, PoolConfig, OpenOptions, open_pool, open_parsed, with_defaults,
}
use smallworld_be.Redis.Connection.{open_client}
use smallworld_be.Startup.{
  Machine, Running, FirebaseConfig, FirebaseOptions, firebase_options, verify_token,
  new_firebase_verifier, new_auth_verifier, firebase_config, getenv_or, start_up, running,
  open_database, connect_redis, logging_ready, new_routing_provider, seed, ◌>>=◌,
}

-- What a step and the rest of a chain have given, where the whole chain succeeds.
>>=-cases :
    {A B G : Type 0} (r : Result A) (f : A → Result B) {b : B}
    → (r >>= f) ≡ ok b
    → ((a : A) → r ≡ ok a → f a ≡ ok b → G)
    → G
>>=-cases (ok a) f h k = k a refl h
>>=-cases (err e) f h k = absurd (cc)

-- How tokens are verified: without credentials, against the emulator that the variable names once
-- trimmed, where the endpoint of development is offered; with credentials where it is not.
pub record Verifies (m : Machine) (r : Running) : Type 0 where
  pub options : FirebaseOptions
  pub by_options : r.verify ≡ verify_token m options
  pub project : (options.project_id ≡ m.getenv "FIREBASE_PROJECT_ID") × (options.project_id ≢ "")
  pub one_way :
      ((r.enable_dev_bootstrap ≡ true)
        × (m.getenv "FIREBASE_AUTH_EMULATOR_HOST" ≢ "")
        × (options.emulator ≡ some (trim_space (m.getenv "FIREBASE_AUTH_EMULATOR_HOST")))
        × (options.credentials ≡ none))
      ⊎ ((r.enable_dev_bootstrap ≡ false)
          × (options.emulator ≡ none)
          × (m.getenv "FIREBASE_CREDENTIALS_FILE" ≢ "")
          × (options.credentials ≡ some (m.getenv "FIREBASE_CREDENTIALS_FILE")))

verifier_lem :
    (m : Machine) (cfg : FirebaseConfig) (v : String → Result AuthIdentity)
    → new_auth_verifier m cfg ≡ ok v
    → ((cfg.project_id == "") ≡ false)
      × ((cfg.auth_emulator_host == "" && cfg.credentials_file == "") ≡ false)
      × (v ≡ verify_token m (firebase_options cfg))
unfolding new_auth_verifier new_firebase_verifier
verifier_lem m cfg v h = (ground arith, ground arith, ground arith)

way_lem :
    (m : Machine)
    → (m.getenv "FIREBASE_AUTH_EMULATOR_HOST" == "" && m.getenv "FIREBASE_CREDENTIALS_FILE" == "")
      ≡ false
    → let o = firebase_options (firebase_config m.getenv) in
      ((not (m.getenv "FIREBASE_AUTH_EMULATOR_HOST" == "") ≡ true)
        × (m.getenv "FIREBASE_AUTH_EMULATOR_HOST" ≢ "")
        × (o.emulator ≡ some (trim_space (m.getenv "FIREBASE_AUTH_EMULATOR_HOST")))
        × (o.credentials ≡ none))
      ⊎ ((not (m.getenv "FIREBASE_AUTH_EMULATOR_HOST" == "") ≡ false)
          × (o.emulator ≡ none)
          × (m.getenv "FIREBASE_CREDENTIALS_FILE" ≢ "")
          × (o.credentials ≡ some (m.getenv "FIREBASE_CREDENTIALS_FILE")))
unfolding firebase_options
way_lem m h = elim (Bool-cases (m.getenv "FIREBASE_AUTH_EMULATOR_HOST" == "")) [
  | inl e ↦
      let file : (m.getenv "FIREBASE_CREDENTIALS_FILE" == "") ≡ false = ground arith in
      inr (
        ground arith,
        ground arith,
        ground (arith, eq_iff (m.getenv "FIREBASE_CREDENTIALS_FILE") ""),
        ground arith,
      )
  | inr e ↦ inl (
    ground arith,
    ground (arith, eq_iff (m.getenv "FIREBASE_AUTH_EMULATOR_HOST") ""),
    ground arith,
    ground arith,
  )
]

-- What has been reached before the server listens.
pub record Guarded (m : Machine) (r : Running) : Type 0 where
  pub logged : load_config_from_env m.getenv "smallworld-api" ≡ valid r.log
  pub database : m.pgx.ping r.pool ≡ none
  pub redis :
      m.redis_ping_failure (getenv_or m.getenv "REDIS_URL" "redis://localhost:6379/0") ≡ none
  pub verifies : Verifies m r
  pub seeds : (r.seeded ≡ true) ↔ (m.getenv "SEED_DEMO_DATA" ≡ "true")
  pub seeding_succeeded : m.getenv "SEED_DEMO_DATA" ≡ "true" → m.seed_failure ≡ none

pinged :
    (p : PgxPool) (o : OpenOptions) (d c : PoolConfig)
    → open_parsed p o (ok d) ≡ ok c
    → p.ping c ≡ none
pinged p o d c h = elim (Option-cases (p.new_with_config (with_defaults o d))) [
  | inl e ↦ elim (Option-cases (p.ping (with_defaults o d))) [
    | inl n ↦ ground arith
    | inr (z, n) ↦ absurd (ground arith)
  ]
  | inr (z, e) ↦ absurd (ground arith)
]

open_pool-pinged :
    (p : PgxPool) (url : String) (o : OpenOptions) (c : PoolConfig)
    → open_pool p url o ≡ ok c
    → p.ping c ≡ none
unfolding open_pool
open_pool-pinged p url o c h = elim (Result-cases (p.parse_config url)) [
  | inl (d, e) ↦ pinged p o d c (ground arith)
  | inr (z, e) ↦ absurd (ground arith)
]

open_client-pinged :
    (f g : String → Option Error) (url : String) → open_client f g url ≡ ok tt → g url ≡ none
unfolding open_client
open_client-pinged f g url h = ground arith

ok-injective : {A : Type 0} {a b : A} → ok a ≡ ok b → a ≡ b
ok-injective h = cc

log_ready : (c : Parsed Config) (log : Config) → logging_ready c ≡ ok log → c ≡ valid log
log_ready c log h = ground arith

seed_lem :
    (m : Machine) (seeded : Bool)
    → seed m ≡ ok seeded
    → (seeded ≡ true) ↔ (m.getenv "SEED_DEMO_DATA" ≡ "true")
seed_lem m seeded h = elim (Bool-cases (m.getenv "SEED_DEMO_DATA" == "true")) [
  | inl e ↦ (λ t. (eq_iff (m.getenv "SEED_DEMO_DATA") "true").0 e, λ t. ground arith)
  | inr e ↦ (
    λ t. absurd (ground arith),
    λ t. absurd (cc ((eq_iff (m.getenv "SEED_DEMO_DATA") "true").1 t)),
  )
]

seed_done :
    (m : Machine) (seeded : Bool)
    → seed m ≡ ok seeded
    → m.getenv "SEED_DEMO_DATA" ≡ "true"
    → m.seed_failure ≡ none
seed_done m seeded h s =
    let is_asked = (eq_iff (m.getenv "SEED_DEMO_DATA") "true").1 s in
    elim (Option-cases m.seed_failure) [ inl e ↦ e | inr (z, e) ↦ absurd (ground arith) ]

running-Guarded :
    (m : Machine) (log : Config) (routed : RoutingProvider × String) (pool : PoolConfig)
    (v : String → Result AuthIdentity) (seeded : Bool)
    → logging_ready (load_config_from_env m.getenv "smallworld-api") ≡ ok log
    → m.pgx.ping pool ≡ none
    → connect_redis m ≡ ok tt
    → new_auth_verifier m (firebase_config m.getenv) ≡ ok v
    → seed m ≡ ok seeded
    → Guarded m (running m.getenv log routed pool v seeded)
unfolding running firebase_options
running-Guarded m log routed pool v seeded e0 e2 e3 e4 e5 =
    let w = verifier_lem m (firebase_config m.getenv) v e4 in
    record {
      logged = log_ready _ log e0;
      database = e2;
      redis = open_client-pinged _ _ _ e3;
      verifies = record {
        options = firebase_options (firebase_config m.getenv);
        by_options = w.2;
        project = (refl, ground (arith, eq_iff (m.getenv "FIREBASE_PROJECT_ID") ""));
        one_way = way_lem m w.1;
      };
      seeds = seed_lem m seeded e5;
      seeding_succeeded = seed_done m seeded e5;
    }

-- A program that serves has a valid configuration of the log, has reached its database and Redis,
-- and knows its Firebase project. If FIREBASE_AUTH_EMULATOR_HOST is not empty, it offers the
-- endpoint of development that verifies users by their own word, and starts Firebase without
-- credentials, with that variable's value, trimmed, for the emulator's host, which is the empty host
-- where the value is spaces only; otherwise it does not offer the endpoint, and starts Firebase with
-- credentials and no emulator. It has run the seeding of demonstration data exactly if
-- SEED_DEMO_DATA is "true", and then the seeding has not failed.
pub start_up-Guarded : (m : Machine) (r : Running) → start_up m ≡ ok r → Guarded m r
unfolding start_up
start_up-Guarded m r h =
    >>=-cases (logging_ready (load_config_from_env m.getenv "smallworld-api")) _ h λ log e0 h0.
      >>=-cases (new_routing_provider m) _ h0 λ routed e1 h1.
        >>=-cases (open_database m log) _ h1 λ pool e2 h2.
          >>=-cases (connect_redis m) _ h2 λ u e3 h3.
            >>=-cases (new_auth_verifier m (firebase_config m.getenv)) _ h3 λ v e4 h4.
              >>=-cases (seed m) _ h4 λ seeded e5 h5. subst (Guarded m) (ok-injective h5) (
                running-Guarded m log routed pool v seeded e0 (open_pool-pinged m.pgx _ _ pool e2)
                  e3 e4 e5)
