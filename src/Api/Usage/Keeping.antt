-- ===== src/Api/Usage/Keeping.antt =====
-- Naming usage keys passes on a sound state, although it asks Keycloak in its own way.
use k8s_stack_keycloak_api_k.Base.{
  Str, Bool, ◌&&◌, ◌||◌, not, Option, none, some, List, [], ◌∷◌, Option-cases, Bool-cases, inl, inr,
  str_eq, ◌==◌, contains, any, lookup, subst, Result, ok, err,
}
use k8s_stack_keycloak_api_k.Managed.Grant.{
  ManagedApiKey, Raised, slot_fault, duplicate_verifiers, unicode_decode,
}
use k8s_stack_keycloak_api_k.Managed.Slots.{metadata, context_credential_id}
use k8s_stack_keycloak_api_k.Keycloak.Exec.{Client, KcError, Kc}
use k8s_stack_keycloak_api_k.Keycloak.Exec as Exec
use k8s_stack_keycloak_api_k.Keycloak.Requests.{get_service_account_user_id}
use k8s_stack_keycloak_api_k.Keycloak.Entitlements.Cache.{HoldsAnswers}
use k8s_stack_keycloak_api_k.Jwks.{Cache}
use k8s_stack_keycloak_api_k.Jwks.Thread.{ServesUsable}
use k8s_stack_keycloak_api_k.Api.Http.{Setup, App}
use k8s_stack_keycloak_api_k.Api.Tokens.{CurrentUser}
use k8s_stack_keycloak_api_k.Api.Sound.{
  GoodCache, Sound, Sound-continue, require_then, KeepsAnswers,
  get_service_account_user_id-KeepsAnswers,
}
use k8s_stack_keycloak_api_k.Api.Usage.{
  UsageKeyReference, Owners, Found, ids_of, managed, is_managed, is_foreign, usage_admin, answered,
  owner_of, name_managed, name_all, lookup_managed, managed_usage_names, usage_names,
  usage_key_metadata,
}

KeepsAnswers-continue {ℓ κ} :
    {A : Type ℓ} {B : Type κ} (f : A → Kc B) (r : Result KcError A × Client)
    → HoldsAnswers r.1.entitlement_cache
    → ((a : A) → KeepsAnswers (f a))
    → HoldsAnswers (Exec.continue f r).1.entitlement_cache
KeepsAnswers-continue f (ok a, c) h keeps = keeps a c h
KeepsAnswers-continue f (err e, c) h keeps = h

answered-Sound :
    (c : Cache) (r : Result KcError Found × Client) (s : App)
    → Sound s
    → ServesUsable c
    → HoldsAnswers r.1.entitlement_cache
    → Sound (answered c r s).1
unfolding answered
answered-Sound c (ok found, client) s h usable holds = (h.0, h.1, (holds, usable))
answered-Sound c (err Exec.unavailable, client) s h usable holds = (h.0, h.1, (holds, usable))
answered-Sound c (err Exec.out_of_fuel, client) s h usable holds = (h.0, h.1, (holds, usable))

module _ (setup : Setup) where
  -- `owner_of` after the lookup
  abbrev owner_from :
      Str → Owners → Client → Option (Option Str) → Result KcError (Option Str × Owners) × Client
  owner_from client_id owners c o = elim o [
    | some owner ↦ (ok (owner, owners), c)
    | none ↦
        Exec.continue (λ owner d. (ok (owner, (client_id, owner) ∷ owners), d))
          (get_service_account_user_id setup.world client_id c)
  ]

  owner_of-KeepsAnswers :
      (client_id : Str) (owners : Owners) → KeepsAnswers (owner_of setup client_id owners)
  unfolding owner_of
  owner_of-KeepsAnswers client_id owners c h = go (lookup client_id owners)
    where
      go :
          (o : Option (Option Str))
          → HoldsAnswers (owner_from client_id owners c o).1.entitlement_cache
      go (some owner) = h
      go none =
          KeepsAnswers-continue _ (get_service_account_user_id setup.world client_id c)
            (get_service_account_user_id-KeepsAnswers setup.world client_id c h) (λ owner d k. k)

  name_managed-KeepsAnswers :
      (requested : List (Str × Str)) (key : ManagedApiKey) (found : Found)
      → KeepsAnswers (name_managed setup requested key found)
  unfolding name_managed
  name_managed-KeepsAnswers requested key found c h =
      elim (Bool-cases
        (any (λ (r : Str × Str). r.0 == context_credential_id setup.host key) requested)) [
          | inl asked ↦
              rw (asked, name_managed)
                (KeepsAnswers-continue _ (owner_of setup key.principal_client_id found.owners c)
                  (owner_of-KeepsAnswers key.principal_client_id found.owners c h) (λ owner d k. k))
          | inr other ↦ rw (other, name_managed) h
        ]

  name_all-KeepsAnswers :
      (requested : List (Str × Str)) (keys : List ManagedApiKey) (found : Found)
      → KeepsAnswers (name_all setup requested keys found)
  unfolding name_all
  name_all-KeepsAnswers requested [] found c h = h
  name_all-KeepsAnswers requested (key ∷ keys) found c h =
      KeepsAnswers-continue (name_all setup requested keys)
        (name_managed setup requested key found c)
        (name_managed-KeepsAnswers requested key found c h)
        (λ next. name_all-KeepsAnswers requested keys next)

  lookup_managed-Sound :
      (keys : List UsageKeyReference) (c : Cache) (r : Result Raised (List ManagedApiKey)) (s : App)
      → Sound s
      → GoodCache (some c)
      → Sound (lookup_managed setup keys c r s).1
  unfolding lookup_managed
  lookup_managed-Sound keys c (ok registered) s h good = answered-Sound c _ s h good.1 (
      name_all-KeepsAnswers (ids_of managed keys) registered (record { owners = []; names = [] })
        c.client good.0)
  lookup_managed-Sound keys c (err (slot_fault slot reason)) s h good = h
  lookup_managed-Sound keys c (err duplicate_verifiers) s h good = h
  lookup_managed-Sound keys c (err unicode_decode) s h good = h

  managed_usage_names-Sound :
      (keys : List UsageKeyReference) (s : App)
      → Sound s
      → Sound (managed_usage_names setup keys s).1
  unfolding managed_usage_names
  managed_usage_names-Sound keys s h = elim (Option-cases s.cache) [
    | inl off ↦ rw (off, managed_usage_names) h
    | inr (c, here) ↦
        rw (here, managed_usage_names)
          (lookup_managed-Sound keys c (metadata setup.host setup.managed_slots) s h
            (subst GoodCache here h.2))
  ]

  usage_names-Sound :
      (keys : List UsageKeyReference) (is_admin : Bool) (s : App)
      → Sound s
      → Sound (usage_names setup keys is_admin s).1
  unfolding usage_names
  usage_names-Sound keys is_admin s h = elim (Bool-cases (is_admin && any is_managed keys)) [
    | inl asks ↦
        rw (asks, usage_names)
          (Sound-continue _ (managed_usage_names setup keys s) (managed_usage_names-Sound keys s h)
            (λ found t k. k))
    | inr alone ↦ rw (alone, usage_names) h
  ]

  pub usage_key_metadata-Sound :
      (keys : List UsageKeyReference) (user : CurrentUser) (s : App)
      → Sound s
      → Sound (usage_key_metadata setup keys user s).1
  unfolding usage_key_metadata
  usage_key_metadata-Sound keys user s h =
      require_then (contains usage_admin user.realm_roles || not (any (is_foreign user) keys)) _ s _
        h
        (Sound-continue _ (usage_names setup keys (contains usage_admin user.realm_roles) s)
          (usage_names-Sound keys (contains usage_admin user.realm_roles) s h) (λ names t k. k))
