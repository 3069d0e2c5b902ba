-- ===== src/Health.antt =====
-- `health_check` of controllers/health.py: the readiness probe.
pub mod Keeping
pub mod Readiness
use k8s_stack_keycloak_api_k.Base.{
  Bool, true, false, Option, none, some, if◌then◌else◌, Result, ok, err,
}
use k8s_stack_keycloak_api_k.Keycloak.Exec.{Client, KcError, unavailable, out_of_fuel}
use k8s_stack_keycloak_api_k.Keycloak.Requests.{health_check}
use k8s_stack_keycloak_api_k.Jwks.{Cache, invalidate, is_available}
use k8s_stack_keycloak_api_k.Api.Http.{Setup, App, Failure}
use k8s_stack_keycloak_api_k.Api.Http as Http

-- The checks that the probe reports: all is well with 200, and the others with 503.
pub data Report : Type 0 where
  healthy database_error keycloak_misconfigured keycloak_unavailable : Report

pub probed : Cache → Result KcError (Unit {0}) × Client → App → Result Failure Report × App
unfolding invalidate
probed c (ok _, client) s = (ok healthy, record s { cache = some (record c { client = client }) })
probed c (err unavailable, client) s =
    (ok keycloak_unavailable, record s { cache = some (invalidate (record c { client = client })) })
probed c (err out_of_fuel, client) s =
    (err Http.out_of_fuel, record s { cache = some (record c { client = client }) })

module _ (setup : Setup) where
  pub check_keycloak : Option Cache → App → Result Failure Report × App
  unfolding probed is_available health_check
  check_keycloak none s = (ok keycloak_misconfigured, s)
  check_keycloak (some c) s =
      if setup.keycloak_configured
      then (if is_available c
          then probed c (health_check setup.world setup.config.agentgateway_client_id c.client) s
          else (ok keycloak_unavailable, s))
      else (ok keycloak_misconfigured, s)

  -- The probe, where `answers` says whether the database executed the query.
  unfoldable pub readiness : Bool → App → Result Failure Report × App
  unfolding check_keycloak
  readiness answers s = if answers then check_keycloak s.cache s else (ok database_error, s)
