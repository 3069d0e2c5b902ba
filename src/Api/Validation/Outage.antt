-- ===== src/Api/Validation/Outage.antt =====
-- Keycloak being unavailable while a key is validated: 503 now, and until the signing keys are back.
use k8s_stack_keycloak_api_k.Base.{
  Str, ◌≡◌, refl, ◌⊎◌, inl, inr, false, ◌&&◌, Option, none, some, is_empty, Bool-cases,
  if◌then◌else◌, arith, Result, ok, err,
}
use k8s_stack_keycloak_api_k.Database.Keys.{ApiKeyMetadata}
use k8s_stack_keycloak_api_k.Database.Keys as Keys
use k8s_stack_keycloak_api_k.Managed.Grant.{ManagedApiKey}
use k8s_stack_keycloak_api_k.Managed.Slots.{match}
use k8s_stack_keycloak_api_k.Keycloak.Exec.{Client, Kc, unavailable}
use k8s_stack_keycloak_api_k.Keycloak.Requests.{get_service_account_user_id, mark_unavailable}
use k8s_stack_keycloak_api_k.Keycloak.Entitlements.{get_principal_entitlements}
use k8s_stack_keycloak_api_k.Jwks.{Cache, invalidate, is_available}
use k8s_stack_keycloak_api_k.Api.Http.{Setup, App}
use k8s_stack_keycloak_api_k.Api.Tokens.{available_cache}
use k8s_stack_keycloak_api_k.Api.Validation.{
  no_authorization, settle, ask, entitlements_or_error, managed_key_response, personal_key_response,
  matched_response, validate_key,
}

-- the state after an outage that the client `c'` met
pub closed : Client → Cache → App → App
unfolding invalidate mark_unavailable
closed c' c s = record s { cache = some (invalidate (record c { client = mark_unavailable c' })) }

available_cache-cache :
    (setup : Setup) (s : App) {c : Cache} → available_cache setup s ≡ some c → s.cache ≡ some c
unfolding available_cache
available_cache-cache setup s {c} h = go s.cache h
  where
    go :
        (o : Option Cache)
        → ◌≡◌ {A = Option Cache}
            (elim o [
              | none ↦ none
              | some c ↦ if setup.keycloak_configured && is_available c then some c else none
            ])
            (some c)
        → o ≡ some c
    go none h = cc
    go (some x) h = elim (Bool-cases (setup.keycloak_configured && is_available x)) [
      | inl here ↦ rw here at h
      | inr gone ↦ absurd (cc (rw gone at h))
    ]

ask_outage {ℓ} :
    {A : Type ℓ} (call : Kc A) (s : App) {c : Cache} {c' : Client}
    → s.cache ≡ some c
    → call c.client ≡ (err unavailable, c')
    → ask call s ≡ (err no_authorization, closed c' c s)
unfolding ask settle closed
ask_outage {A} call s {c} {c'} here out = go s.cache here
  where
    go :
        (o : Option Cache)
        → o ≡ some c
        → ◌≡◌ {A = Result _ A × App}
            (elim o [ none ↦ (err no_authorization, s) | some c ↦ settle c (call c.client) s ])
            (err no_authorization, closed c' c s)
    go none e = cc
    go (some x) e = let same : x ≡ c = cc in rw (same, out) refl

later_refused :
    (setup : Setup) (secret : Str) (c' : Client) (c : Cache) (s : App)
    → validate_key setup secret (closed c' c s) ≡ (err no_authorization, closed c' c s)
unfolding validate_key closed invalidate available_cache is_available
later_refused setup secret c' c s = ground arith

-- If Keycloak's client is unavailable while a presented key's principal is looked up, the caller gets
-- 503, and in the state that is left every key gets 503, under any configuration, since the signing
-- keys were discarded; the client was asked about a stored key's owner or a managed key's account.
pub outage_fails_closed :
    (setup : Setup) (secret : Str) (s : App) (c : Cache) (c' : Client)
    → is_empty secret ≡ false
    → available_cache setup s ≡ some c
    → ((key : ApiKeyMetadata) × (match setup.host setup.managed_slots secret ≡ ok none)
        × (Keys.get_key setup.platform setup.now secret s.session ≡ some key)
        × (get_principal_entitlements setup.world setup.config setup.fuel key.user_id c.client
            ≡ (err unavailable, c')))
      ⊎ ((key : ManagedApiKey) × (match setup.host setup.managed_slots secret ≡ ok (some key))
          × (get_service_account_user_id setup.world key.principal_client_id c.client
              ≡ (err unavailable, c')))
    → (t : App) × (validate_key setup secret s ≡ (err no_authorization, t))
      × ((later : Setup) (other : Str) → validate_key later other t ≡ (err no_authorization, t))
unfolding validate_key matched_response personal_key_response managed_key_response
    entitlements_or_error
outage_fails_closed setup secret s c c' given here (inl (key, unmatched, found, out)) = (
  closed c' c s,
  rw
      (
        here,
        given,
        unmatched,
        found,
        ask_outage (get_principal_entitlements setup.world setup.config setup.fuel key.user_id) s
            {c = c} {c' = c'} (available_cache-cache setup s {c = c} here) out,
      )
      refl,
  λ later other. later_refused later other c' c s,
)
outage_fails_closed setup secret s c c' given here (inr (key, matched, out)) = (
  closed c' c s,
  rw
      (
        here,
        given,
        matched,
        ask_outage (get_service_account_user_id setup.world key.principal_client_id) s {c = c}
            {c' = c'} (available_cache-cache setup s {c = c} here) out,
      )
      refl,
  λ later other. later_refused later other c' c s,
)
