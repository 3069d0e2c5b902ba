-- ===== src/Api/Validation/Keeping.antt =====
-- Validating a key passes on a sound state.
use k8s_stack_keycloak_api_k.Base.{Str, Option, none, some, not, is_empty, Result, ok, err}
use k8s_stack_keycloak_api_k.Database.Keys as Keys
use k8s_stack_keycloak_api_k.Managed.Grant.{
  ManagedApiKey, Raised, slot_fault, duplicate_verifiers, unicode_decode,
}
use k8s_stack_keycloak_api_k.Managed.Slots.{match}
use k8s_stack_keycloak_api_k.Keycloak.Requests.{get_service_account_user_id}
use k8s_stack_keycloak_api_k.Api.Http.{Setup, App}
use k8s_stack_keycloak_api_k.Api.Tokens.{available_cache}
use k8s_stack_keycloak_api_k.Api.Sound.{
  Sound, Sound-continue, or_raise_then, require_then, ask-Sound, entitlements_or_error-Sound,
  get_service_account_user_id-KeepsAnswers,
}
use k8s_stack_keycloak_api_k.Api.Validation.{
  lift, ask, entitlements_or_error, managed_key_response, personal_key_response, matched_response,
  validate_key,
}

module _ (setup : Setup) where
  managed_key_response-Sound :
      (key : ManagedApiKey) (s : App) → Sound s → Sound (managed_key_response setup key s).1
  unfolding managed_key_response lift
  managed_key_response-Sound key s h =
      Sound-continue _ (ask (get_service_account_user_id setup.world key.principal_client_id) s)
        (ask-Sound (get_service_account_user_id setup.world key.principal_client_id) s
          (get_service_account_user_id-KeepsAnswers setup.world key.principal_client_id) h)
        (λ account t k. or_raise_then account _ t _ k (λ principal _.
          Sound-continue _ (entitlements_or_error setup principal 401 t)
            (entitlements_or_error-Sound setup principal 401 t k) (λ entitled u g. g)))

  personal_key_response-Sound :
      (key_value : Str) (s : App) → Sound s → Sound (personal_key_response setup key_value s).1
  unfolding personal_key_response lift
  personal_key_response-Sound key_value s h =
      or_raise_then (Keys.get_key setup.platform setup.now key_value s.session) _ s _ h (λ key _.
        Sound-continue _ (entitlements_or_error setup key.user_id 401 s)
          (entitlements_or_error-Sound setup key.user_id 401 s h) (λ entitled u g. g))

  matched_response-Sound :
      (key_value : Str) (r : Result Raised (Option ManagedApiKey)) (s : App)
      → Sound s
      → Sound (matched_response setup key_value r s).1
  unfolding matched_response
  matched_response-Sound key_value (ok (some key)) s h = managed_key_response-Sound key s h
  matched_response-Sound key_value (ok none) s h = personal_key_response-Sound key_value s h
  matched_response-Sound key_value (err (slot_fault slot reason)) s h = h
  matched_response-Sound key_value (err duplicate_verifiers) s h = h
  matched_response-Sound key_value (err unicode_decode) s h = h

  pub validate_key-Sound :
      (key_value : Str) (s : App) → Sound s → Sound (validate_key setup key_value s).1
  unfolding validate_key
  validate_key-Sound key_value s h = or_raise_then (available_cache setup s) _ s _ h (λ cache _.
      require_then (not (is_empty key_value)) _ s _ h
        (matched_response-Sound key_value (match setup.host setup.managed_slots key_value) s h))
