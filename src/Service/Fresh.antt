-- ===== src/Service/Fresh.antt =====
-- When `create_app` succeeds, and that a new application refuses everything until it has keys.
use k8s_stack_keycloak_api_k.Base.{
  ◌≡◌, ◌≢◌, ◌↔◌, refl, sym, ap, ◌∙◌, Str, Bool, true, false, not, Option, none, some, List, [], ◌∷◌,
  str_eq, All, all, all_nonempty_iff, is_empty, Bool-cases, inl, inr, Result, ok, err, or_raise,
  bind-ok_iff, or_raise-ok_iff, arith,
}
use k8s_stack_keycloak_api_k.Database.Session.{Session, postgresql}
use k8s_stack_keycloak_api_k.Database.Schema.Startup.{
  url, psycopg, driver_of, catalog, new_engine, dispose, empty_catalog, StartError, Engine,
  create_engine_and_session_factory,
}
use k8s_stack_keycloak_api_k.Database.Schema.Startup.Retries.{Succeeds, create_engine-ok_iff}
use k8s_stack_keycloak_api_k.Database.Schema.Bootstrap.{Written, Creates, bootstrap_schema}
use k8s_stack_keycloak_api_k.Database.Schema.Bootstrap.Outcomes.{
  declared, declared-Conforms, bootstrap_declared,
}
use k8s_stack_keycloak_api_k.Jwks.{is_available}
use k8s_stack_keycloak_api_k.Api.Http.{Setup, App}
use k8s_stack_keycloak_api_k.Api.Tokens.{available_cache}
use k8s_stack_keycloak_api_k.Api.Validation.{no_authorization, validate_key}
use k8s_stack_keycloak_api_k.Health.{healthy, readiness}
use k8s_stack_keycloak_api_k.Health.Readiness.{readiness_iff}
use k8s_stack_keycloak_api_k.Settings.{Settings, Url, postgres_url, build_auth_info}
use k8s_stack_keycloak_api_k.Service.{
  Surroundings, State, is_configured, no_database, started, connect, create_database, setup_of,
  state_of, create_app, bootstrap_main,
}

-- what the settings need to say of the database, and of Keycloak
abbrev pub HasDatabase : Settings → Type 0
HasDatabase s =
    All (λ part. part ≢ [])
      (s.postgres_host ∷ s.postgres_database ∷ s.postgres_user ∷ s.postgres_password ∷ [])

abbrev pub HasKeycloak : Settings → Type 0
HasKeycloak s =
    All (λ part. part ≢ [])
      (s.keycloak_url ∷ s.keycloak_realm ∷ s.keycloak_issuer ∷ s.keycloak_client_id
        ∷ s.keycloak_client_secret ∷ [])

url_of : Settings → Url
url_of s = record {
  drivername = psycopg;
  username = s.postgres_user;
  password = s.postgres_password;
  host = s.postgres_host;
  port = s.postgres_port;
  database = s.postgres_database;
}

postgres_url_iff :
    (s : Settings) (u : Url) → (postgres_url s ≡ some u) ↔ (HasDatabase s × (u ≡ url_of s))
unfolding postgres_url url_of
postgres_url_iff s u = elim (Bool-cases (all (λ part. not (is_empty part)) parts)) [
  | inl given ↦ rw given (λ h. ((all_nonempty_iff parts).0 given, cc h), λ (h, e). ap some (sym e))
  | inr missing ↦
      rw missing (λ h. absurd (cc h), λ (h, e). absurd (cc (missing, (all_nonempty_iff parts).1 h)))
]
  where
    parts : List Str
    parts = s.postgres_host ∷ s.postgres_database ∷ s.postgres_user ∷ s.postgres_password ∷ []

started_iff :
    (m : Result StartError (Unit {0}) × Option Engine)
    → ((e : Option Engine) × (started m ≡ ok e)) ↔ (m.0 ≡ ok tt)
unfolding started
started_iff (ok _, e) = (λ h. refl, λ h. (e, refl))
started_iff (err x, e) = (λ (o, h). absurd (cc h), λ h. absurd (cc h))

configured_iff : (s : Settings) → (is_configured (build_auth_info s) ≡ true) ↔ HasKeycloak s
unfolding is_configured build_auth_info
configured_iff s = all_nonempty_iff (
    s.keycloak_url ∷ s.keycloak_realm ∷ s.keycloak_issuer ∷ s.keycloak_client_id
    ∷ s.keycloak_client_secret ∷ [])

-- No key is accepted and no health is reported, and there is a client exactly for a complete
-- configuration.
abbrev pub IsClosed : State → Settings → Session → Type 0
IsClosed state settings session =
    ((secret : Str)
      → validate_key state.setup secret (record { session = session; cache = state.jwks_cache })
        ≡ (err no_authorization, record { session = session; cache = state.jwks_cache }))
    × ((answers : Bool)
        → (readiness state.setup answers (record { session = session; cache = state.jwks_cache })).0
          ≢ ok healthy)
    × ((state.jwks_cache ≢ none) ↔ HasKeycloak settings)

module _ (around : Surroundings) where
  connection : Settings → Result StartError (Unit {0}) × Option Engine
  unfolding url_of
  connection settings =
      create_engine_and_session_factory around.sql around.seen (url (url_of settings).drivername)
        false

  starts :
      (settings : Settings)
      → ((connection settings).0 ≡ ok tt) ↔ Succeeds around.sql postgresql around.seen 0 3
  unfolding connection driver_of url_of
  starts settings = create_engine-ok_iff around.sql around.seen (url psycopg) refl false

  -- Without an override the application is made exactly if the settings name a database host, a
  -- database, a user and a password, and one of three attempts to inspect the database finds it
  -- conforming, after nothing but `OperationalError`s.
  pub create_app-ok_iff :
      (settings : Settings)
      → ((state : State) × (create_app around none settings ≡ ok state))
        ↔ (HasDatabase settings × Succeeds around.sql postgresql around.seen 0 3)
  unfolding create_app create_database connect connection
  create_app-ok_iff settings = (
    λ (state, h).
        let (engine, made, e) = (bind-ok_iff (create_database around none settings) _).0 h in
        let (u, given, connected) =
          (bind-ok_iff (or_raise (postgres_url settings) no_database) _).0 made in
        let (database, same) =
          (postgres_url_iff settings u).0
            ((or_raise-ok_iff (postgres_url settings) no_database u).0 given) in
        (
          database,
          (starts settings).0
              ((started_iff (connection settings)).0 (engine, rw same at connected)),
        ),
    λ (database, succeeds).
        let (engine, e) = (started_iff (connection settings)).1 ((starts settings).1 succeeds) in
        (
          state_of around engine settings,
          rw ((postgres_url_iff settings (url_of settings)).1 (database, refl), e) refl,
        ),
  )

  refused :
      (setup : Setup) (secret : Str) (app : App)
      → available_cache setup app ≡ none
      → validate_key setup secret app ≡ (err no_authorization, app)
  unfolding validate_key
  refused setup secret app h = rw h refl

  no_keys :
      (engine : Option Engine) (settings : Settings) (session : Session)
      → available_cache
          (state_of around engine settings).setup
          (record { session = session; cache = (state_of around engine settings).jwks_cache })
        ≡ none
  unfolding state_of setup_of available_cache is_available
  no_keys engine settings session = elim (Bool-cases (is_configured (build_auth_info settings))) [
    | inl complete ↦ rw complete (ground arith)
    | inr partial ↦ rw partial refl
  ]

  has_client :
      (engine : Option Engine) (settings : Settings)
      → ((state_of around engine settings).jwks_cache ≢ none) ↔ HasKeycloak settings
  unfolding state_of setup_of
  has_client engine settings = elim (Bool-cases (is_configured (build_auth_info settings))) [
    | inl complete ↦ rw complete (λ h. (configured_iff settings).0 complete, λ h e. cc e)
    | inr partial ↦
        rw partial (λ h. absurd (h refl), λ h. absurd (cc (partial, (configured_iff settings).1 h)))
  ]

  state-IsClosed :
      (engine : Option Engine) (settings : Settings) (session : Session)
      → IsClosed (state_of around engine settings) settings session
  state-IsClosed engine settings session = (
    λ secret. refused (state_of around engine settings).setup secret app closed,
    λ answers h.
        let (up, (c, found, e)) =
          (readiness_iff (state_of around engine settings).setup answers app).0 h in
        cc (closed, found),
    has_client engine settings,
  )
    where
      app : App
      app = record { session = session; cache = (state_of around engine settings).jwks_cache }

      closed : available_cache (state_of around engine settings).setup app ≡ none
      closed = no_keys engine settings session

  -- A new application, whatever its database's session, refuses every key with 503 and reports no
  -- health, and it has a Keycloak client exactly if the configuration is complete.
  pub create_app-IsClosed :
      (database_url : Option Str) (settings : Settings) (state : State) (session : Session)
      → create_app around database_url settings ≡ ok state
      → IsClosed state settings session
  unfolding create_app
  create_app-IsClosed database_url settings state session h =
      let (engine, made, e) = (bind-ok_iff (create_database around database_url settings) _).0 h in
      let same : state_of around engine settings ≡ state = cc e in
      rw (← same) (state-IsClosed engine settings session)

  boots :
      (settings : Settings)
      → HasDatabase settings
      → bootstrap_main around.sql true settings (empty_catalog around.sql)
        ≡ bootstrap_schema around.sql true psycopg (empty_catalog around.sql)
  unfolding bootstrap_main url_of
  boots settings given =
      rw ((postgres_url_iff settings (url_of settings)).1 (given, refl), bootstrap_main) refl

  -- If `create_all` does what it is documented to do, the settings are complete for the database, and
  -- the first attempt sees what the bootstrap of an empty database left, then the bootstrap succeeds
  -- and the application is made.
  pub bootstrap_main-create_app :
      (settings : Settings)
      → Creates around.sql
      → HasDatabase settings
      → around.seen 0
        ≡ catalog (bootstrap_main around.sql true settings (empty_catalog around.sql)).0.1
      → ((bootstrap_main around.sql true settings (empty_catalog around.sql)).0.0 ≡ ok tt)
        × ((state : State) × (create_app around none settings ≡ ok state))
  bootstrap_main-create_app settings doc given there = (
    ap (λ (b : Written × Option Engine). b.0.0) booted,
    (create_app-ok_iff settings).1 (given, at_first),
  )
    where
      booted :
          bootstrap_main around.sql true settings (empty_catalog around.sql)
          ≡ ((ok tt, declared around.sql), some (dispose new_engine))
      booted = boots settings given ∙ bootstrap_declared around.sql doc

      at_first : Succeeds around.sql postgresql around.seen 0 3
      at_first = record {
        at = 0;
        in_time = omega arith;
        errors_before = λ i early. absurd (omega arith);
        found = declared around.sql;
        there = there ∙ ap (λ (b : Written × Option Engine). catalog b.0.1) booted;
        fine = declared-Conforms around.sql doc;
      }
