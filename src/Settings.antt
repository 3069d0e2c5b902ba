-- ===== src/Settings.antt =====
-- src/keycloak_api_key_bridge/config/settings.py: the settings and what is built from them.
use k8s_stack_keycloak_api_k.Base.{
  ℕ, Str, Bool, not, ◌&&◌, Option, none, some, List, [], ◌∷◌, all, is_empty, leb, if◌then◌else◌,
}
use k8s_stack_keycloak_api_k.Managed.Slots.{ManagedRegistration}
use k8s_stack_keycloak_api_k.Api.Http.{AuthInfo}
use k8s_stack_keycloak_api_k.Database.Schema.Startup.{psycopg}

-- `Settings`, without `keycloak_timeout_seconds`, a float that only the HTTP library reads.
pub record Settings : Type 0 where
  pub keycloak_url : Str
  pub keycloak_realm : Str
  pub keycloak_issuer : Str
  pub keycloak_client_id : Str
  pub keycloak_client_secret : Str
  pub agentgateway_client_id : Str
  pub jwks_refresh_interval_seconds : ℕ
  pub jwks_retry_interval_seconds : ℕ
  pub entitlement_cache_ttl_seconds : ℕ
  pub negative_entitlement_cache_ttl_seconds : ℕ
  pub postgres_host : Str
  pub postgres_port : ℕ
  pub postgres_database : Str
  pub postgres_user : Str
  pub postgres_password : Str
  pub max_keys_per_user : ℕ
  pub managed_registrations : List ManagedRegistration
  pub gateway_caller_oidc_clients_by_binding : List (Str × List Str)
  pub host : Str
  pub port : ℕ
  pub log_level : Str

within : ℕ → ℕ → ℕ → Bool
within low high n = leb low n && leb n high

-- `min_length=1` of both paths, and of the names of bindings and clients
named_files : ManagedRegistration → Bool
named_files r = not (is_empty r.grant_file) && not (is_empty r.verifier_file)

named_clients : Str × List Str → Bool
named_clients (binding_id, clients) =
    not (is_empty binding_id) && all (λ client. not (is_empty client)) clients

-- Whether the declared bounds hold; else no settings are made.
unfoldable pub is_valid : Settings → Bool
unfolding within named_files named_clients
is_valid s =
    within 1 300 s.jwks_refresh_interval_seconds
    && (within 1 60 s.jwks_retry_interval_seconds
        && (within 1 300 s.entitlement_cache_ttl_seconds
            && (within 1 60 s.negative_entitlement_cache_ttl_seconds
                && (within 1 65_535 s.postgres_port
                    && (within 1 100 s.max_keys_per_user
                        && (all named_files s.managed_registrations
                            && all named_clients s.gateway_caller_oidc_clients_by_binding))))))

-- `sqlalchemy.engine.URL`
pub record Url : Type 0 where
  pub drivername : Str
  pub username : Str
  pub password : Str
  pub host : Str
  pub port : ℕ
  pub database : Str

-- `postgres_url`, with `none` for its `ValueError`
unfoldable pub postgres_url : Settings → Option Url
postgres_url s =
    if all (λ part. not (is_empty part))
      (s.postgres_host ∷ s.postgres_database ∷ s.postgres_user ∷ s.postgres_password ∷ [])
    then some (record {
      drivername = psycopg;
      username = s.postgres_user;
      password = s.postgres_password;
      host = s.postgres_host;
      port = s.postgres_port;
      database = s.postgres_database;
    })
    else none

unfoldable pub build_auth_info : Settings → AuthInfo
build_auth_info s = record {
  server_url = s.keycloak_url;
  realm = s.keycloak_realm;
  client_id = s.keycloak_client_id;
  client_secret = s.keycloak_client_secret;
  issuer = s.keycloak_issuer;
}
