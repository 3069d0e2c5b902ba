-- ===== src/Api/Routes/Refusals.antt =====
-- Every refusal of a validate route is 401 or 503, with the code that belongs to it.
use k8s_stack_keycloak_api_k.Base.{
  Str, codes, ◌≡◌, ◌⊎◌, inl, inr, refl, Bool, true, false, not, Option, none, some, is_empty,
  length, ltb, ◌*◌, Bool-cases, Result, ok, err,
}
use k8s_stack_keycloak_api_k.Managed.Grant.{
  ManagedApiKey, Raised, slot_fault, duplicate_verifiers, unicode_decode,
}
use k8s_stack_keycloak_api_k.Managed.Slots.{match, context_credential_id}
use k8s_stack_keycloak_api_k.Database.Keys as Keys
use k8s_stack_keycloak_api_k.Keycloak.Exec.{Client, KcError, Kc}
use k8s_stack_keycloak_api_k.Keycloak.Exec as Exec
use k8s_stack_keycloak_api_k.Keycloak.Requests.{get_service_account_user_id}
use k8s_stack_keycloak_api_k.Keycloak.Entitlements.{get_principal_entitlements}
use k8s_stack_keycloak_api_k.Jwks.{Cache}
use k8s_stack_keycloak_api_k.Api.Http.{
  Setup, App, HttpError, Failure, http, crash, out_of_fuel, http_error, continue, HttpRequest,
  getlist,
}
use k8s_stack_keycloak_api_k.Api.Http as Http
use k8s_stack_keycloak_api_k.Api.Returns.{Returns, Returns-ok}
use k8s_stack_keycloak_api_k.Api.Tokens.{available_cache}
use k8s_stack_keycloak_api_k.Api.Credentials.{Mode, dedicated_api_key}
use k8s_stack_keycloak_api_k.Api.Credentials.Refusals.{IsInvalid, dedicated_api_key-IsInvalid}
use k8s_stack_keycloak_api_k.Api.Validation.{
  Decision, Response, no_authorization, invalid_key, settle, ask, lift, auth_context,
  decision_response, entitlements_or_error, managed_key_response, personal_key_response,
  matched_response, validate_key, personal_decision, managed_decision,
}
use k8s_stack_keycloak_api_k.Api.Routes.{
  Answer, decided, rejected, request_id, answered, error_code, presented_key, validation_response,
}

-- 401 or 503, or no response of the program at all
abbrev IsRefusal : Failure → Type 0
IsRefusal (http e) = (e.status ≡ 401) ⊎ (e.status ≡ 503)
IsRefusal crash = Unit
IsRefusal out_of_fuel = Unit

abbrev Refuses {ℓ} : {A : Type ℓ} → Result Failure A × App → Type 0
Refuses (ok a, s) = Unit
Refuses (err e, s) = IsRefusal e

module _ {ℓ κ} {A : Type ℓ} {B : Type κ} (f : A → App → Result Failure B × App) where
  Refuses-continue :
      (m : Result Failure A × App)
      → Refuses m
      → ((a : A) (s : App) → Refuses (f a s))
      → Refuses (continue f m)
  Refuses-continue (ok a, s) h k = k a s
  Refuses-continue (err e, s) h k = h

  Refuses-or_raise :
      (o : Option A) (e : Failure) (s : App)
      → IsRefusal e
      → ((a : A) → Refuses (f a s))
      → Refuses (continue f (Http.or_raise o e s))
  Refuses-or_raise none e s h k = h
  Refuses-or_raise (some a) e s h k = k a

Refuses-require {ℓ} :
    {A : Type ℓ} (t : Bool) (e : Failure) (s : App) (m : App → Result Failure A × App)
    → IsRefusal e
    → Refuses (m s)
    → Refuses (continue (λ (u : Unit {0}). m) (Http.require t e s))
Refuses-require true e s m h k = k
Refuses-require false e s m h k = h

last_or_raise {ℓ} :
    {A : Type ℓ} (o : Option A) (e : Failure) (s : App)
    → IsRefusal e
    → Refuses (Http.or_raise o e s)
last_or_raise none e s h = h
last_or_raise (some a) e s h = tt

module _ (setup : Setup) where
  settle-Refuses {ℓ} :
      {A : Type ℓ} (c : Cache) (s : App) (r : Result KcError A × Client) → Refuses (settle c r s)
  unfolding settle
  settle-Refuses c s (ok a, client) = tt
  settle-Refuses c s (err Exec.unavailable, client) = inr refl
  settle-Refuses c s (err Exec.out_of_fuel, client) = tt

  ask-Refuses {ℓ} : {A : Type ℓ} (call : Kc A) (s : App) → Refuses (ask call s)
  unfolding ask
  ask-Refuses {A} call s = go s.cache
    where
      go :
          (o : Option Cache)
          → Refuses {A = A}
              (elim o [ none ↦ (err no_authorization, s) | some c ↦ settle c (call c.client) s ])
      go none = inr refl
      go (some c) = settle-Refuses c s (call c.client)

  entitlements-Refuses :
      (principal : Str) (s : App) → Refuses (entitlements_or_error setup principal 401 s)
  unfolding entitlements_or_error
  entitlements-Refuses principal s =
      let call = get_principal_entitlements setup.world setup.config setup.fuel principal in
      Refuses-continue _ (ask call s) (ask-Refuses call s) (λ found s'.
        last_or_raise found (http_error 401 "Keycloak principal is unavailable") s' (inl refl))

  decision-Refuses :
      (context_id : Str) (d : Decision) (s : App)
      → Refuses (lift (decision_response setup context_id d) s)
  unfolding lift decision_response
  decision-Refuses context_id d s =
      elim (Bool-cases (ltb (64 * 1024) (length (setup.codec.dumps (auth_context context_id d))))) [
        | inl long ↦ rw long (inr refl)
        | inr short ↦ rw short tt
      ]

  managed-Refuses : (key : ManagedApiKey) (s : App) → Refuses (managed_key_response setup key s)
  unfolding managed_key_response
  managed-Refuses key s =
      let call = get_service_account_user_id setup.world key.principal_client_id in
      Refuses-continue _ (ask call s) (ask-Refuses call s) (λ account s1.
        Refuses-or_raise _ account (http_error 401 "Managed credential principal unavailable") s1
          (inl refl)
          (λ principal.
            Refuses-continue _ (entitlements_or_error setup principal 401 s1)
              (entitlements-Refuses principal s1)
              (λ e s2.
                decision-Refuses (context_credential_id setup.host key)
                  (managed_decision key principal e) s2)))

  personal-Refuses : (secret : Str) (s : App) → Refuses (personal_key_response setup secret s)
  unfolding personal_key_response
  personal-Refuses secret s =
      Refuses-or_raise _ (Keys.get_key setup.platform setup.now secret s.session) invalid_key s
        (inl refl)
        (λ key.
          Refuses-continue _ (entitlements_or_error setup key.user_id 401 s)
            (entitlements-Refuses key.user_id s)
            (λ e s'. decision-Refuses key.id (personal_decision key e) s'))

  matched-Refuses :
      (secret : Str) (found : Result Raised (Option ManagedApiKey)) (s : App)
      → Refuses (matched_response setup secret found s)
  unfolding matched_response
  matched-Refuses secret (ok (some key)) s = managed-Refuses key s
  matched-Refuses secret (ok none) s = personal-Refuses secret s
  matched-Refuses secret (err (slot_fault slot reason)) s = inr refl
  matched-Refuses secret (err duplicate_verifiers) s = inr refl
  matched-Refuses secret (err unicode_decode) s = tt

  validate_key-Refuses : (secret : Str) (s : App) → Refuses (validate_key setup secret s)
  unfolding validate_key
  validate_key-Refuses secret s =
      Refuses-or_raise _ (available_cache setup s) no_authorization s (inr refl) (λ cache.
        Refuses-require (not (is_empty secret))
          (http_error 401 "An API key must be passed as a header") s _ (inl refl)
          (matched-Refuses secret (match setup.host setup.managed_slots secret) s))

  lift-Refuses : (r : Result Failure Str) (s : App) → IsInvalid r → Refuses (lift r s)
  unfolding lift
  lift-Refuses (ok key_value) s h = tt
  lift-Refuses (err e) s h = rw h (inl refl)

  presented_key-Refuses :
      (request : HttpRequest) (mode : Mode) (s : App) → Refuses (presented_key setup request mode s)
  unfolding presented_key
  presented_key-Refuses request mode s =
      Refuses-continue (validate_key setup) (lift (dedicated_api_key setup.codec request mode) s)
        (lift-Refuses (dedicated_api_key setup.codec request mode) s
          (dedicated_api_key-IsInvalid setup.codec request mode))
        (λ key_value s'. validate_key-Refuses key_value s')

-- what a rejection looks like
abbrev pub IsRejection : Answer → Type 0
IsRejection (decided id r) = Unit
IsRejection (rejected id code e) =
    ((e.status ≡ 401) × (code ≡ "authentication_failed"))
    ⊎ ((e.status ≡ 503) × (code ≡ "authentication_unavailable"))

answered-IsRejection :
    (id : Str) (r : Result Failure Response × App)
    → Refuses r
    → Returns (λ a s. IsRejection a) (answered id r)
unfolding answered error_code
answered-IsRejection id (ok r, s) h = tt
answered-IsRejection id (err (http e), s) (inl unauthorized) =
    inl (unauthorized, rw unauthorized refl)
answered-IsRejection id (err (http e), s) (inr unavailable) = inr (unavailable, rw unavailable refl)
answered-IsRejection id (err crash, s) h = tt
answered-IsRejection id (err out_of_fuel, s) h = tt

-- If a validate route sends a rejection, in either mode, its status is 401 with the code
-- authentication_failed, or 503 with the code authentication_unavailable.
pub validation_response-IsRejection :
    (setup : Setup) (request : HttpRequest) (mode : Mode) (s t : App) (a : Answer)
    → validation_response setup request mode s ≡ (ok a, t)
    → IsRejection a
unfolding validation_response
validation_response-IsRejection setup request mode s t a h =
    Returns-ok (λ a s. IsRejection a) (validation_response setup request mode s) {a = a} {s = t}
      (answered-IsRejection (request_id setup.codec (getlist (codes "x-request-id") request))
        (presented_key setup request mode s) (presented_key-Refuses setup request mode s))
      h
