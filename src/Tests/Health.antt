-- ===== src/Tests/Health.antt =====
-- The probe against a Keycloak that does not answer.
use k8s_stack_keycloak_api_k.Base.{◌≡◌, ◌↔◌, refl, true, some, ok, err}
use k8s_stack_keycloak_api_k.Keycloak.Exec.{unavailable, tick}
use k8s_stack_keycloak_api_k.Keycloak.Requests.{health_check}
use k8s_stack_keycloak_api_k.Jwks.{Cache, is_available}
use k8s_stack_keycloak_api_k.Api.Tokens.{available_cache}
use k8s_stack_keycloak_api_k.Health.{healthy, readiness}
use k8s_stack_keycloak_api_k.Health.Readiness.{readiness_iff}
use k8s_stack_keycloak_api_k.Tests.Data.{app, setup, cache, client}

readiness_iff_example : ((readiness setup true app).0 ≡ ok healthy) ↔ (
    (true ≡ true)
    × ((c : Cache) × (available_cache setup app ≡ some c)
        × ((health_check setup.world setup.config.agentgateway_client_id c.client).0 ≡ ok tt)))
readiness_iff_example = readiness_iff setup true app

available : available_cache setup app ≡ some cache
unfolding available_cache is_available
available = refl

unanswered :
    health_check setup.world setup.config.agentgateway_client_id client
    ≡ (err unavailable, tick client)
unfolding health_check
unanswered = refl
