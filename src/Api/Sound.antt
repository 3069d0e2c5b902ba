-- ===== src/Api/Sound.antt =====
-- A state in which the parts of the program are as their own theorems leave them, and that handlers
-- pass from one to another.
use k8s_stack_keycloak_api_k.Base.{
  ℕ, ◌≡◌, refl, inl, inr, Str, Bool, true, false, Option, none, some, Result, ok, err,
}
use k8s_stack_keycloak_api_k.Database.Session.{IsClean}
use k8s_stack_keycloak_api_k.Database.Rows.{WellFormed}
use k8s_stack_keycloak_api_k.Keycloak.Exec.{World, Config, Client, KcError, Kc}
use k8s_stack_keycloak_api_k.Keycloak.Exec as Exec
use k8s_stack_keycloak_api_k.Keycloak.Requests.{get_service_account_user_id, mark_unavailable}
use k8s_stack_keycloak_api_k.Keycloak.Requests.Keeping.{Stored}
use k8s_stack_keycloak_api_k.Keycloak.Requests.Accounts.{
  IsKept, Keeps-IsKept, get_service_account_user_id-Keeps,
}
use k8s_stack_keycloak_api_k.Keycloak.Entitlements.{get_principal_entitlements}
use k8s_stack_keycloak_api_k.Keycloak.Entitlements.Cache.{
  HoldsAnswers, get_principal_entitlements-IsAnswer,
}
use k8s_stack_keycloak_api_k.Jwks.{Cache, invalidate}
use k8s_stack_keycloak_api_k.Jwks.Thread.{ServesUsable}
use k8s_stack_keycloak_api_k.Api.Http.{Setup, App, Failure, continue, or_raise, require}
use k8s_stack_keycloak_api_k.Api.Validation.{no_authorization, settle, ask, entitlements_or_error}

-- only answers in the client, only usable keys in the cache
abbrev pub GoodCache : Option Cache → Type 0
GoodCache none = Unit
GoodCache (some c) = HoldsAnswers c.client.entitlement_cache × ServesUsable c

-- A session between requests, on rows that meet the constraints, and a good cache.
abbrev pub Sound : App → Type 0
Sound s = IsClean s.session × WellFormed s.session.rows × GoodCache s.cache

module _ {ℓ κ} {A : Type ℓ} {B : Type κ} where
  pub Sound-continue :
      (f : A → App → Result Failure B × App) (m : Result Failure A × App)
      → Sound m.1
      → ((a : A) (t : App) → Sound t → Sound (f a t).1)
      → Sound (continue f m).1
  Sound-continue f (ok a, t) h k = k a t h
  Sound-continue f (err e, t) h k = h

  pub or_raise_then :
      (o : Option A) (e : Failure) (s : App) (f : A → App → Result Failure B × App)
      → Sound s
      → ((a : A) → o ≡ some a → Sound (f a s).1)
      → Sound (continue f (or_raise o e s)).1
  or_raise_then none e s f h k = h
  or_raise_then (some a) e s f h k = k a refl

module _ {ℓ} {A : Type ℓ} where
  pub require_then :
      (t : Bool) (e : Failure) (s : App) (m : App → Result Failure A × App)
      → Sound s
      → Sound (m s).1
      → Sound (continue (λ (u : Unit {0}). m) (require t e s)).1
  require_then true e s m h k = k
  require_then false e s m h k = h

  pub or_raise-Sound : (o : Option A) (e : Failure) (s : App) → Sound s → Sound (or_raise o e s).1
  or_raise-Sound none e s h = h
  or_raise-Sound (some a) e s h = h

  -- a call of the client that leaves only answers in it
  abbrev pub KeepsAnswers : Kc A → Type 0
  KeepsAnswers call =
      (c : Client) → HoldsAnswers c.entitlement_cache → HoldsAnswers (call c).1.entitlement_cache

  settle-Sound :
      (c : Cache) (r : Result KcError A × Client) (s : App)
      → Sound s
      → ServesUsable c
      → HoldsAnswers r.1.entitlement_cache
      → Sound (settle c r s).1
  unfolding settle invalidate mark_unavailable
  settle-Sound c (ok a, client) s (clean, rows, good) usable holds = (clean, rows, (holds, usable))
  settle-Sound c (err Exec.unavailable, client) s (clean, rows, good) usable holds =
      (clean, rows, (tt, λ keys e. absurd (cc e)))
  settle-Sound c (err Exec.out_of_fuel, client) s (clean, rows, good) usable holds =
      (clean, rows, (holds, usable))

  abbrev asked : Kc A → App → Option Cache → Result Failure A × App
  asked call s o = elim o [ none ↦ (err no_authorization, s) | some c ↦ settle c (call c.client) s ]

  pub ask-Sound : (call : Kc A) (s : App) → KeepsAnswers call → Sound s → Sound (ask call s).1
  unfolding ask
  ask-Sound call s keeps h = go s.cache h.2
    where
      go : (o : Option Cache) → GoodCache o → Sound (asked call s o).1
      go none good = h
      go (some c) good = settle-Sound c (call c.client) s h good.1 (keeps c.client good.0)

pub IsKept-HoldsAnswers {ℓ} :
    {A : Type ℓ} (kept : Stored) (r : Result KcError A × Client)
    → IsKept kept r
    → HoldsAnswers kept
    → HoldsAnswers r.1.entitlement_cache
IsKept-HoldsAnswers kept (r, c) (inl same) h = rw same h
IsKept-HoldsAnswers kept (r, c) (inr empty) h = rw empty tt

pub IsKept-KeepsAnswers {ℓ} :
    {A : Type ℓ} (call : Kc A)
    → ((c : Client) → IsKept c.entitlement_cache (call c))
    → KeepsAnswers call
IsKept-KeepsAnswers call k c h = IsKept-HoldsAnswers c.entitlement_cache (call c) (k c) h

pub get_service_account_user_id-KeepsAnswers :
    (w : World) (client_id : Str) → KeepsAnswers (get_service_account_user_id w client_id)
get_service_account_user_id-KeepsAnswers w client_id =
    IsKept-KeepsAnswers (get_service_account_user_id w client_id) (λ c.
      Keeps-IsKept c.entitlement_cache (get_service_account_user_id w client_id c)
        (get_service_account_user_id-Keeps w client_id c))

module _ (setup : Setup) where
  -- asking for a principal's entitlements
  pub entitlements_or_error-Sound :
      (principal : Str) (missing_status : ℕ) (s : App)
      → Sound s
      → Sound (entitlements_or_error setup principal missing_status s).1
  unfolding entitlements_or_error
  entitlements_or_error-Sound principal missing_status s h =
      Sound-continue _
        (ask (get_principal_entitlements setup.world setup.config setup.fuel principal) s)
        (ask-Sound (get_principal_entitlements setup.world setup.config setup.fuel principal) s
          (λ c holds.
            (get_principal_entitlements-IsAnswer setup.world setup.config setup.fuel principal c
              (get_principal_entitlements setup.world setup.config setup.fuel principal c).1
              (get_principal_entitlements setup.world setup.config setup.fuel principal c).0 holds
              refl).0)
          h)
        (λ found t k. or_raise-Sound found _ t k)
