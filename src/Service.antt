-- ===== src/Service.antt =====
-- src/keycloak_api_key_bridge/main.py: the application is put together from the settings.
pub mod Fresh
pub mod Lifespan
use k8s_stack_keycloak_api_k.Base.{
  ℕ, Str, codes, Bool, true, false, not, ◌&&◌, Option, none, some, List, [], ◌∷◌, map, ◌==◌, str_eq,
  dedup, all, is_empty, if◌then◌else◌, Result, ok, err, ◌>>=◌, ◌>>◌, require, or_raise,
}
use k8s_stack_keycloak_api_k.Database.Keys.{Platform}
use k8s_stack_keycloak_api_k.Database.Schema.{Catalog, Sqlalchemy}
use k8s_stack_keycloak_api_k.Database.Schema.Bootstrap.{Written, bootstrap_schema}
use k8s_stack_keycloak_api_k.Database.Schema.Startup.{
  DatabaseUrl, url, text, Seen, StartError, unsupported, Engine, create_engine_and_session_factory,
}
use k8s_stack_keycloak_api_k.Managed.Slots.{Host, files}
use k8s_stack_keycloak_api_k.Keycloak.Exec.{Client, World, Config}
use k8s_stack_keycloak_api_k.Jwks.{Cache}
use k8s_stack_keycloak_api_k.Api.Http.{AuthInfo, Codec, Setup}
use k8s_stack_keycloak_api_k.Settings.{Settings, postgres_url, build_auth_info}

-- What the application finds outside itself.
pub record Surroundings : Type 0 where
  pub sql : Sqlalchemy
  pub seen : ℕ → Seen
  pub world : World
  pub fuel : ℕ
  pub host : Host
  pub platform : Platform
  pub codec : Codec
  pub now : ℕ

-- what `create_app` raises
pub data AppError : Type 0 where
  only_memory no_database : AppError
  no_start : StartError → AppError

-- `app.state`
pub record State : Type 0 where
  pub db_engine : Option Engine
  pub setup : Setup
  pub jwks_cache : Option Cache

-- `KeycloakClient.__init__`: it holds no token and no answer
abbrev pub new_client : Client
new_client = record {
  token = none;
  token_expiry = 0;
  client_ids = [];
  entitlement_cache = [];
  ticks = 0;
}

-- `JWKSCache.__init__`
abbrev pub new_cache : Cache
new_cache = record { client = new_client; keys = none }

-- `all(...)` of the five parts of the Keycloak configuration
unfoldable pub is_configured : AuthInfo → Bool
is_configured auth =
    all (λ part. not (is_empty part))
      (auth.server_url ∷ auth.realm ∷ auth.issuer ∷ auth.client_id ∷ auth.client_secret ∷ [])

started : Result StartError (Unit {0}) × Option Engine → Result AppError (Option Engine)
started (ok _, engine) = ok engine
started (err e, engine) = err (no_start e)

module _ (around : Surroundings) where
  connect : DatabaseUrl → Bool → Result AppError (Option Engine)
  unfolding started
  connect database_url allow_sqlite_for_tests =
      started (
        create_engine_and_session_factory around.sql around.seen database_url
          allow_sqlite_for_tests)

  -- the engine, of the override for tests or of the settings
  unfoldable pub create_database : Option Str → Settings → Result AppError (Option Engine)
  unfolding connect
  create_database (some database_url) settings = do
    require (database_url == codes "sqlite://") only_memory
    connect (text database_url) true
  create_database none settings = do
    database_url ← or_raise (postgres_url settings) no_database
    connect (url database_url.drivername) false

  -- what the handlers read of `app.state`
  unfoldable pub setup_of : Settings → Setup
  unfolding build_auth_info is_configured files
  setup_of settings = record {
    auth_info = build_auth_info settings;
    keycloak_configured = is_configured (build_auth_info settings);
    agentgateway_client_id = settings.agentgateway_client_id;
    max_keys_per_user = settings.max_keys_per_user;
    managed_slots = files settings.managed_registrations;
    oidc_clients_by_binding =
        map (λ (b : Str × List Str). (b.0, dedup b.1))
          settings.gateway_caller_oidc_clients_by_binding;
    world = around.world;
    config = record {
      agentgateway_client_id = settings.agentgateway_client_id;
      entitlement_cache_ttl_seconds = settings.entitlement_cache_ttl_seconds;
      negative_cache_ttl_seconds = settings.negative_entitlement_cache_ttl_seconds;
    };
    fuel = around.fuel;
    host = around.host;
    platform = around.platform;
    codec = around.codec;
    now = around.now;
  }

  -- the client and the cache are made together or not at all
  unfoldable pub state_of : Option Engine → Settings → State
  unfolding setup_of
  state_of engine settings =
      let setup = setup_of settings in
      record {
        db_engine = engine;
        setup = setup;
        jwks_cache = if setup.keycloak_configured then some new_cache else none;
      }

  unfoldable pub create_app : Option Str → Settings → Result AppError State
  unfolding create_database state_of
  create_app database_url settings = do
    engine ← create_database database_url settings
    ok (state_of engine settings)

-- `bootstrap_main`; the `ValueError` of `postgres_url` is reported as that of `bootstrap_schema`
unfoldable pub bootstrap_main : Sqlalchemy → Bool → Settings → Catalog → Written × Option Engine
unfolding bootstrap_schema postgres_url
bootstrap_main sql begun settings c = elim (postgres_url settings) [
  | none ↦ ((err unsupported, c), none)
  | some database_url ↦ bootstrap_schema sql begun database_url.drivername c
]
