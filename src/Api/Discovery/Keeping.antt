-- ===== src/Api/Discovery/Keeping.antt =====
-- Answering a caller of the gateway passes on a sound state.
use k8s_stack_keycloak_api_k.Base.{
  Str, codes, some, List, str_eq, lookup, Bool-cases, inl, inr, ◌++◌, Result, ok, err,
}
use k8s_stack_keycloak_api_k.Json.{get, as_nonempty_str, is_text}
use k8s_stack_keycloak_api_k.Api.Http.{Setup, App, Failure, HttpRequest}
use k8s_stack_keycloak_api_k.Api.Credentials.{neurwerk, dedicated_api_key}
use k8s_stack_keycloak_api_k.Api.Tokens.{verified_token}
use k8s_stack_keycloak_api_k.Api.Tokens.Reading.{verified_token-Sound}
use k8s_stack_keycloak_api_k.Api.Validation.{Response, validate_key}
use k8s_stack_keycloak_api_k.Api.Validation.Keeping.{validate_key-Sound}
use k8s_stack_keycloak_api_k.Api.Sound.{Sound, Sound-continue, or_raise_then, require_then}
use k8s_stack_keycloak_api_k.Api.Discovery.{
  lift, is_json_content, is_invalid_key, is_approved, gateway_roles, token_permissions,
  key_or_token, gateway_caller_permissions,
}

module _ (setup : Setup) where
  token_permissions-Sound :
      (approved : List Str) (credential : Str) (s : App)
      → Sound s
      → Sound (token_permissions setup approved credential s).1
  unfolding token_permissions
  token_permissions-Sound approved credential s h =
      Sound-continue _
        (verified_token setup (some (codes "Bearer " ++ credential)) setup.agentgateway_client_id s)
        (verified_token-Sound setup (some (codes "Bearer " ++ credential))
          setup.agentgateway_client_id s h)
        (λ payload t k.
          require_then (is_text (codes "Bearer") (get (codes "typ") payload)) _ t _ k (
            or_raise_then (as_nonempty_str (get (codes "sub") payload)) _ t _ k (λ sub _.
              require_then (is_approved setup approved (get (codes "azp") payload)) _ t _ k
                (or_raise_then (gateway_roles setup payload) _ t _ k (λ roles _. k)))))

  key_or_token-Sound :
      (approved : List Str) (credential : Str) (r : Result Failure Response × App)
      → Sound r.1
      → Sound (key_or_token setup approved credential r).1
  unfolding key_or_token
  key_or_token-Sound approved credential (ok r, s) h = h
  key_or_token-Sound approved credential (err e, s) h = elim (Bool-cases (is_invalid_key e)) [
    | inl invalid ↦ rw (invalid, key_or_token) (token_permissions-Sound approved credential s h)
    | inr other ↦ rw (other, key_or_token) h
  ]

  pub gateway_caller_permissions-Sound :
      (request : HttpRequest) (binding_id : Str) (s : App)
      → Sound s
      → Sound (gateway_caller_permissions setup request binding_id s).1
  unfolding gateway_caller_permissions lift
  gateway_caller_permissions-Sound request binding_id s h =
      require_then (is_json_content request) _ s _ h (
        or_raise_then (lookup binding_id setup.oidc_clients_by_binding) _ s _ h (λ approved _.
          Sound-continue _ (lift (dedicated_api_key setup.codec request neurwerk) s) h
            (λ credential t k.
              key_or_token-Sound approved credential (validate_key setup credential t)
                (validate_key-Sound setup credential t k))))
