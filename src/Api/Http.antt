-- ===== src/Api/Http.antt =====
-- The state that the handlers share, requests, failures, and handlers as actions.
use k8s_stack_keycloak_api_k.Base.{
  ℕ, Str, String, Bool, true, false, Option, none, some, List, map, ◌==◌, str_eq, filter, Result,
  ok, err,
}
use k8s_stack_keycloak_api_k.Json.{Json, Fields}
use k8s_stack_keycloak_api_k.Database.Session.{Session}
use k8s_stack_keycloak_api_k.Database.Keys.{Platform}
use k8s_stack_keycloak_api_k.Managed.Slots.{Host, Slot}
use k8s_stack_keycloak_api_k.Keycloak.Exec.{World, Config}
use k8s_stack_keycloak_api_k.Jwks.{Cache}

-- `AuthInfo`
pub record AuthInfo : Type 0 where
  pub server_url : Str
  pub realm : Str
  pub client_id : Str
  pub client_secret : Str
  pub issuer : Str

-- What the handlers call of `jose`, `base64`, `json` and `uuid`.
pub record Codec : Type 0 where
  pub unverified_header : Str → Option Fields
  -- `jwt.decode` with RS256: token, key, audience, issuer; `none` is a `JWTError`
  pub decode : Str → Fields → Str → Str → Option Fields
  pub b64decode : Str → Option (List ℕ)
  pub b64encode : List ℕ → Str
  pub utf8_decode : List ℕ → Option Str
  pub dumps : Json → Str
  pub uuid4_hex : Str

-- the part of `app.state` that no request changes, and the outside world
pub record Setup : Type 0 where
  pub auth_info : AuthInfo
  pub keycloak_configured : Bool
  pub agentgateway_client_id : Str
  pub max_keys_per_user : ℕ
  pub managed_slots : List Slot
  pub oidc_clients_by_binding : List (Str × List Str)
  pub world : World
  pub config : Config
  pub fuel : ℕ
  pub host : Host
  pub platform : Platform
  pub codec : Codec
  pub now : ℕ

-- What requests change: the database session, and the JWKS cache with the Keycloak client that it
-- shares with the handlers; `create_app` makes both or neither.
pub record App : Type 0 where
  pub session : Session
  pub cache : Option Cache

-- `HTTPException`
pub record HttpError : Type 0 where
  pub status : ℕ
  pub detail : String

-- An `HTTPException`, an exception that no handler translates, or a run that the fuel ends.
pub data Failure : Type 0 where
  http : HttpError → Failure
  crash : Failure
  out_of_fuel : Failure

abbrev pub Handler {ℓ} : Type ℓ → Type ℓ
Handler A = App → Result Failure A × App

abbrev pub http_error : ℕ → String → Failure
http_error status detail = http (record { status = status; detail = detail })

module _ {ℓ} {A : Type ℓ} where
  abbrev pub pure : A → Handler A
  pure a s = (ok a, s)

  abbrev pub raise : Failure → Handler A
  raise e s = (err e, s)

  abbrev pub continue {κ} :
      {B : Type κ}
      → (A → App → Result Failure B × App)
      → Result Failure A × App
      → Result Failure B × App
  continue f (ok a, s) = f a s
  continue f (err e, s) = (err e, s)

  abbrev pub or_raise : Option A → Failure → Handler A
  or_raise none e s = (err e, s)
  or_raise (some a) e s = (ok a, s)

infixl 5 ◌>>=◌ ◌>>◌
abbrev pub ◌>>=◌ {ℓ κ} :
    {A : Type ℓ} {B : Type κ}
    → Handler A
    → (A → App → Result Failure B × App)
    → App
    → Result Failure B × App
◌>>=◌ m f s = continue f (m s)

abbrev pub ◌>>◌ {ℓ} :
    {B : Type ℓ}
    → Handler (Unit {0})
    → (App → Result Failure B × App)
    → App
    → Result Failure B × App
m >> k = m >>= λ _. k

abbrev pub require : Bool → Failure → Handler (Unit {0})
require true e s = (ok tt, s)
require false e s = (err e, s)

-- An HTTP request; header names are in lower case.
pub record HttpRequest : Type 0 where
  pub headers : List (Str × Str)

-- `request.headers.getlist(name)`
unfoldable pub getlist : Str → HttpRequest → List Str
getlist name r = map (λ (h : Str × Str). h.1) (filter (λ (h : Str × Str). h.0 == name) r.headers)
