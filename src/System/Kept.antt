-- ===== src/System/Kept.antt =====
-- What every request and every step of the thread keep.
use k8s_stack_keycloak_api_k.Base.{Str, Bool, Option, none, some, List, [], ◌∷◌}
use k8s_stack_keycloak_api_k.Keycloak.Exec.{World}
use k8s_stack_keycloak_api_k.Keycloak.Requests.{fetch_jwks}
use k8s_stack_keycloak_api_k.Keycloak.Requests.Accounts.{Keeps-IsKept}
use k8s_stack_keycloak_api_k.Keycloak.Entitlements.Cache.{HoldsAnswers}
use k8s_stack_keycloak_api_k.Jwks.{Cache}
use k8s_stack_keycloak_api_k.Jwks.Keeping.{fetch_jwks-Keeps, finish-HoldsAnswers}
use k8s_stack_keycloak_api_k.Jwks.Thread.{
  Activity, unstarted, looping, fetching, fetched, waiting, ended, run_step, run_step-ServesUsable,
}
use k8s_stack_keycloak_api_k.Api.Http.{Setup, App, Handler}
use k8s_stack_keycloak_api_k.Api.Sound.{GoodCache, Sound, Sound-continue, IsKept-HoldsAnswers}
use k8s_stack_keycloak_api_k.Api.Tokens.{CurrentUser, get_current_user}
use k8s_stack_keycloak_api_k.Api.Tokens.Reading.{get_current_user-Sound}
use k8s_stack_keycloak_api_k.Api.Management.{
  validated_request, get_permissions, create_api_key, revoke_api_key, list_api_keys,
}
use k8s_stack_keycloak_api_k.Api.Management.Keeping.{
  get_permissions-Sound, create_api_key-Sound, list_api_keys-Sound, revoke_api_key-Sound,
}
use k8s_stack_keycloak_api_k.Api.Usage.{validated_keys, usage_key_metadata}
use k8s_stack_keycloak_api_k.Api.Usage.Keeping.{usage_key_metadata-Sound}
use k8s_stack_keycloak_api_k.Api.Discovery.Keeping.{gateway_caller_permissions-Sound}
use k8s_stack_keycloak_api_k.Api.Routes.Keeping.{validation_response-Sound}
use k8s_stack_keycloak_api_k.Health.Keeping.{readiness-Sound}
use k8s_stack_keycloak_api_k.System.{
  Call, whoami, permissions, create, list_all, revoke, usage, validate, caller_permissions, probe,
  as_user, with_body, perform, Running, Event, serve, turn, turned, happen, run,
}

-- a handler that passes on a sound state, whoever calls
abbrev KeepsSound {ℓ} : {A : Type ℓ} → (CurrentUser → Handler A) → Type 0
KeepsSound handler = (user : CurrentUser) (s : App) → Sound s → Sound (handler user s).1

module _ (setup : Setup) where
  as_user-Sound {ℓ} :
      {A : Type ℓ} (authorization : Option Str) (handler : CurrentUser → Handler A) (s : App)
      → KeepsSound handler
      → Sound s
      → Sound (as_user setup authorization handler s)
  unfolding as_user
  as_user-Sound authorization handler s keeps h =
      Sound-continue handler (get_current_user setup authorization s)
        (get_current_user-Sound setup authorization s h) keeps

  with_body-Sound {ℓ κ} :
      {A : Type ℓ} {B : Type κ} (authorization : Option Str) (body : Option B)
      (handler : B → CurrentUser → Handler A) (s : App)
      → ((b : B) → KeepsSound (handler b))
      → Sound s
      → Sound (with_body setup authorization body handler s)
  unfolding with_body
  with_body-Sound authorization none handler s keeps h =
      get_current_user-Sound setup authorization s h
  with_body-Sound authorization (some b) handler s keeps h =
      as_user-Sound authorization (handler b) s (keeps b) h

  perform-Sound : (call : Call) (s : App) → Sound s → Sound (perform setup call s)
  unfolding perform
  perform-Sound (whoami authorization) s h = get_current_user-Sound setup authorization s h
  perform-Sound (permissions authorization target) s h =
      as_user-Sound authorization (λ user. get_permissions setup user target) s
        (λ user t k. get_permissions-Sound setup user target t k) h
  perform-Sound (create authorization draw body) s h =
      with_body-Sound authorization (validated_request body) (create_api_key setup draw) s
        (λ b user t k. create_api_key-Sound setup draw b user t k) h
  perform-Sound (list_all authorization target) s h =
      as_user-Sound authorization (λ user. list_api_keys setup user target) s
        (λ user t k. list_api_keys-Sound setup user target t k) h
  perform-Sound (revoke authorization key_id) s h =
      as_user-Sound authorization (revoke_api_key key_id) s
        (λ user t k. revoke_api_key-Sound key_id user t k) h
  perform-Sound (usage authorization keys) s h =
      with_body-Sound authorization (validated_keys keys) (usage_key_metadata setup) s
        (λ b user t k. usage_key_metadata-Sound setup b user t k) h
  perform-Sound (validate request mode) s h = validation_response-Sound setup request mode s h
  perform-Sound (caller_permissions request binding_id) s h =
      gateway_caller_permissions-Sound setup request binding_id s h
  perform-Sound (probe answers) s h = readiness-Sound setup answers s h

run_step-HoldsAnswers :
    (w : World) (stop : Bool) (a : Activity) (c : Cache)
    → HoldsAnswers c.client.entitlement_cache
    → HoldsAnswers (run_step w stop a c).1.client.entitlement_cache
unfolding run_step
run_step-HoldsAnswers w stop unstarted c h = h
run_step-HoldsAnswers w stop looping c h = h
run_step-HoldsAnswers w stop fetching c h =
    IsKept-HoldsAnswers c.client.entitlement_cache (fetch_jwks w c.client)
      (Keeps-IsKept c.client.entitlement_cache (fetch_jwks w c.client)
        (fetch_jwks-Keeps w c.client))
      h
run_step-HoldsAnswers w stop (fetched r) c h = finish-HoldsAnswers w r c h
run_step-HoldsAnswers w stop waiting c h = h
run_step-HoldsAnswers w stop ended c h = h

turned-Sound :
    (w : World) (stop : Bool) (o : Option Cache) (r : Running)
    → Sound r.app
    → GoodCache o
    → Sound (turned w stop o r).app
unfolding turned
turned-Sound w stop none r h good = h
turned-Sound w stop (some c) r h good = (
  h.0,
  h.1,
  (
    run_step-HoldsAnswers w stop r.activity c good.0,
    run_step-ServesUsable w stop r.activity c good.1,
  ),
)

happen-Sound : (event : Event) (r : Running) → Sound r.app → Sound (happen event r).app
unfolding happen
happen-Sound (serve setup call) r h = perform-Sound setup call r.app h
happen-Sound (turn w stop) r h = turned-Sound w stop r.app.cache r h h.2

-- From a sound state, every sequence of requests to the routes and of steps of the refresh thread
-- leads to a sound state, whatever Keycloak and the clock answer: no write is left uncommitted, the
-- rows meet the constraints of the table, every stored answer of the client has valid and distinct
-- permissions, and the keys that are served are usable signing keys.
pub run-Sound : (events : List Event) (r : Running) → Sound r.app → Sound (run events r).app
unfolding run
run-Sound [] r h = h
run-Sound (event ∷ events) r h = run-Sound events (happen event r) (happen-Sound event r h)
