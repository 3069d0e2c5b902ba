-- ===== src/Api/Routes/Keeping.antt =====
-- The validate routes pass on a sound state.
use k8s_stack_keycloak_api_k.Base.{Str, codes, Result, ok, err}
use k8s_stack_keycloak_api_k.Api.Http.{
  Setup, App, Failure, http, crash, out_of_fuel, HttpRequest, getlist,
}
use k8s_stack_keycloak_api_k.Api.Credentials.{Mode, dedicated_api_key}
use k8s_stack_keycloak_api_k.Api.Validation.{Response, lift}
use k8s_stack_keycloak_api_k.Api.Validation.Keeping.{validate_key-Sound}
use k8s_stack_keycloak_api_k.Api.Sound.{Sound, Sound-continue}
use k8s_stack_keycloak_api_k.Api.Routes.{answered, presented_key, request_id, validation_response}

answered-Sound :
    (id : Str) (r : Result Failure Response × App) → Sound r.1 → Sound (answered id r).1
unfolding answered
answered-Sound id (ok r, s) h = h
answered-Sound id (err (http e), s) h = h
answered-Sound id (err crash, s) h = h
answered-Sound id (err out_of_fuel, s) h = h

module _ (setup : Setup) where
  presented_key-Sound :
      (request : HttpRequest) (mode : Mode) (s : App)
      → Sound s
      → Sound (presented_key setup request mode s).1
  unfolding presented_key lift
  presented_key-Sound request mode s h =
      Sound-continue _ (lift (dedicated_api_key setup.codec request mode) s) h
        (λ key_value t k. validate_key-Sound setup key_value t k)

  pub validation_response-Sound :
      (request : HttpRequest) (mode : Mode) (s : App)
      → Sound s
      → Sound (validation_response setup request mode s).1
  unfolding validation_response
  validation_response-Sound request mode s h =
      answered-Sound (request_id setup.codec (getlist (codes "x-request-id") request))
        (presented_key setup request mode s) (presented_key-Sound request mode s h)
