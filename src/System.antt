-- ===== src/System.antt =====
-- The running program: requests to every route, in any order, and the steps of the refresh thread
-- between them. Each is given its own `Setup` or `World`, so that the clock, Keycloak's replies and
-- the draws may differ from one to the next.
pub mod Kept
use k8s_stack_keycloak_api_k.Base.{Str, Bool, Option, none, some, List, [], ◌∷◌}
use k8s_stack_keycloak_api_k.Database.Keys.{Draw}
use k8s_stack_keycloak_api_k.Keycloak.Exec.{World}
use k8s_stack_keycloak_api_k.Jwks.{Cache}
use k8s_stack_keycloak_api_k.Jwks.Thread.{Activity, run_step}
use k8s_stack_keycloak_api_k.Api.Http.{Setup, App, Handler, HttpRequest, continue}
use k8s_stack_keycloak_api_k.Api.Credentials.{Mode}
use k8s_stack_keycloak_api_k.Api.Tokens.{CurrentUser, get_current_user}
use k8s_stack_keycloak_api_k.Api.Management.{
  CreateApiKeyRequest, validated_request, get_permissions, create_api_key, revoke_api_key,
  list_api_keys,
}
use k8s_stack_keycloak_api_k.Api.Usage.{UsageKeyReference, validated_keys, usage_key_metadata}
use k8s_stack_keycloak_api_k.Api.Discovery.{gateway_caller_permissions}
use k8s_stack_keycloak_api_k.Api.Routes.{validation_response}
use k8s_stack_keycloak_api_k.Health.{readiness}

-- What is asked of the program, one constructor per route; the first argument of the routes that
-- know the caller is the `Authorization` header.
pub data Call : Type 0 where
  whoami : Option Str → Call
  permissions : Option Str → Option Str → Call
  create : Option Str → Draw → CreateApiKeyRequest → Call
  list_all : Option Str → Option Str → Call
  revoke : Option Str → Str → Call
  usage : Option Str → List UsageKeyReference → Call
  validate : HttpRequest → Mode → Call
  caller_permissions : HttpRequest → Str → Call
  probe : Bool → Call

-- a handler behind `get_current_user`, and the state that it leaves
unfoldable pub as_user {ℓ} :
    {A : Type ℓ} → Setup → Option Str → (CurrentUser → Handler A) → App → App
unfolding get_current_user
as_user setup authorization handler s =
    (continue handler (get_current_user setup authorization s)).1

-- a handler with a body; if the body is refused, only the caller has been looked up
unfoldable pub with_body {ℓ κ} :
    {A : Type ℓ} {B : Type κ}
    → Setup
    → Option Str
    → Option B
    → (B → CurrentUser → Handler A)
    → App
    → App
unfolding as_user get_current_user
with_body setup authorization none handler s = (get_current_user setup authorization s).1
with_body setup authorization (some body) handler s = as_user setup authorization (handler body) s

-- the state after a request
unfoldable pub perform : Setup → Call → App → App
unfolding get_current_user as_user with_body get_permissions create_api_key validated_request
    list_api_keys revoke_api_key usage_key_metadata validated_keys validation_response
    gateway_caller_permissions readiness
perform setup (whoami authorization) s = (get_current_user setup authorization s).1
perform setup (permissions authorization target) s =
    as_user setup authorization (λ user. get_permissions setup user target) s
perform setup (create authorization draw body) s =
    with_body setup authorization (validated_request body) (create_api_key setup draw) s
perform setup (list_all authorization target) s =
    as_user setup authorization (λ user. list_api_keys setup user target) s
perform setup (revoke authorization key_id) s =
    as_user setup authorization (revoke_api_key key_id) s
perform setup (usage authorization keys) s =
    with_body setup authorization (validated_keys keys) (usage_key_metadata setup) s
perform setup (validate request mode) s = (validation_response setup request mode s).1
perform setup (caller_permissions request binding_id) s =
    (gateway_caller_permissions setup request binding_id s).1
perform setup (probe answers) s = (readiness setup answers s).1

-- the state of the program and where its thread is
pub record Running : Type 0 where
  pub app : App
  pub activity : Activity

-- a request, or a step of the thread, with the event that `stop` sets
pub data Event : Type 0 where
  serve : Setup → Call → Event
  turn : World → Bool → Event

pub turned : World → Bool → Option Cache → Running → Running
unfolding run_step
turned w stop none r = r
turned w stop (some c) r =
    let (activity, after) = run_step w stop r.activity c in
    record { app = record r.app { cache = some after }; activity = activity }

unfoldable pub happen : Event → Running → Running
unfolding perform turned
happen (serve setup call) r = record r { app = perform setup call r.app }
happen (turn w stop) r = turned w stop r.app.cache r

unfoldable pub run : List Event → Running → Running
unfolding happen
run [] r = r
run (event ∷ events) r = run events (happen event r)
