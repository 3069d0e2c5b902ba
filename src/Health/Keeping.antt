-- ===== src/Health/Keeping.antt =====
-- The readiness probe passes on a sound state.
use k8s_stack_keycloak_api_k.Base.{
  Bool, true, false, Option, none, some, Bool-cases, inl, inr, Result, ok, err,
}
use k8s_stack_keycloak_api_k.Keycloak.Exec.{Client, KcError, unavailable, out_of_fuel}
use k8s_stack_keycloak_api_k.Keycloak.Requests.{health_check}
use k8s_stack_keycloak_api_k.Keycloak.Requests.Accounts.{health_check-IsKept}
use k8s_stack_keycloak_api_k.Keycloak.Entitlements.Cache.{HoldsAnswers}
use k8s_stack_keycloak_api_k.Jwks.{Cache, invalidate, is_available}
use k8s_stack_keycloak_api_k.Jwks.Thread.{ServesUsable}
use k8s_stack_keycloak_api_k.Api.Http.{Setup, App}
use k8s_stack_keycloak_api_k.Api.Sound.{GoodCache, Sound, IsKept-KeepsAnswers}
use k8s_stack_keycloak_api_k.Health.{probed, check_keycloak, readiness}

probed-Sound :
    (c : Cache) (r : Result KcError (Unit {0}) × Client) (s : App)
    → Sound s
    → ServesUsable c
    → HoldsAnswers r.1.entitlement_cache
    → Sound (probed c r s).1
unfolding probed invalidate
probed-Sound c (ok u, client) s (clean, rows, good) usable holds = (clean, rows, (holds, usable))
probed-Sound c (err unavailable, client) s (clean, rows, good) usable holds =
    (clean, rows, (holds, λ keys e. absurd (cc e)))
probed-Sound c (err out_of_fuel, client) s (clean, rows, good) usable holds =
    (clean, rows, (holds, usable))

module _ (setup : Setup) where
  check_keycloak-Sound :
      (o : Option Cache) (s : App) → Sound s → GoodCache o → Sound (check_keycloak setup o s).1
  unfolding check_keycloak
  check_keycloak-Sound none s h good = h
  check_keycloak-Sound (some c) s h good = elim (Bool-cases setup.keycloak_configured) [
    | inr missing ↦ rw (missing, check_keycloak) h
    | inl configured ↦ elim (Bool-cases (is_available c)) [
      | inr down ↦ rw (configured, down, check_keycloak) h
      | inl up ↦
          rw (configured, up, check_keycloak)
            (probed-Sound c (health_check setup.world setup.config.agentgateway_client_id c.client)
              s h good.1
              (IsKept-KeepsAnswers (health_check setup.world setup.config.agentgateway_client_id)
                (λ d. health_check-IsKept setup.world setup.config.agentgateway_client_id d)
                c.client good.0))
    ]
  ]

  pub readiness-Sound : (answers : Bool) (s : App) → Sound s → Sound (readiness setup answers s).1
  unfolding readiness
  readiness-Sound true s h = check_keycloak-Sound s.cache s h h.2
  readiness-Sound false s h = h
