-- ===== src/Keycloak/Exec.antt =====
-- The client's state, the world that it talks to, and its methods as actions that may raise. What
-- was written before a raise stays written.
use k8s_stack_keycloak_api_k.Base.{
  ℕ, suc, Str, Bool, true, false, Option, none, some, List, Result, ok, err,
}
use k8s_stack_keycloak_api_k.Json.{Json}

pub record PrincipalEntitlements : Type 0 where
  pub permissions : List Str
  pub groups : List Str
  pub account_email : Option Str

-- `KeycloakClient`; `ticks` numbers its readings of the outside world
pub record Client : Type 0 where
  pub token : Option Str
  pub token_expiry : ℕ
  pub client_ids : List (Str × Str)
  pub entitlement_cache : List (Str × (ℕ × Option PrincipalEntitlements))
  pub ticks : ℕ

-- the paths that the client requests
pub data Endpoint : Type 0 where
  certs token_endpoint : Endpoint
  clients user : Str → Endpoint
  service_account : Str → Endpoint
  role_mappings : Str → Str → Endpoint
  groups_from : Str → ℕ → Endpoint

pub record Request : Type 0 where
  pub endpoint : Endpoint
  pub bearer : Option Str

-- An `httpx.HTTPError`, or a response with its status and its body, `none` if that is no JSON.
pub data Reply : Type 0 where
  transport_error : Reply
  response : ℕ → Option Json → Reply

-- Everything that the client does not decide: replies, clocks in seconds, and the decoding of a
-- token's payload by `base64` and `json` and of a claim by `float`.
pub record World : Type 0 where
  pub reply : ℕ → Request → Reply
  pub monotonic : ℕ → ℕ
  pub time : ℕ → ℕ
  pub decode_payload : Str → Option Json
  pub to_float : Json → Option ℕ

pub record Config : Type 0 where
  pub agentgateway_client_id : Str
  pub entitlement_cache_ttl_seconds : ℕ
  pub negative_cache_ttl_seconds : ℕ

-- `KeycloakUnavailableError`; `out_of_fuel` is no exception of the program: it marks a run whose
-- paging loop needs more rounds than the fuel allows
pub data KcError : Type 0 where
  unavailable out_of_fuel : KcError

abbrev pub Kc {ℓ} : Type ℓ → Type ℓ
Kc A = Client → Result KcError A × Client

module _ {ℓ} {A : Type ℓ} where
  abbrev pub pure : A → Kc A
  pure a c = (ok a, c)

  abbrev pub raise : KcError → Kc A
  raise e c = (err e, c)

  abbrev pub continue {κ} :
      {B : Type κ}
      → (A → Client → Result KcError B × Client)
      → Result KcError A × Client
      → Result KcError B × Client
  continue f (ok a, c) = f a c
  continue f (err e, c) = (err e, c)

  abbrev pub or_unavailable : Option A → Kc A
  or_unavailable none c = (err unavailable, c)
  or_unavailable (some a) c = (ok a, c)

infixl 5 ◌>>=◌ ◌>>◌
abbrev pub ◌>>=◌ {ℓ κ} :
    {A : Type ℓ} {B : Type κ}
    → Kc A
    → (A → Client → Result KcError B × Client)
    → Client
    → Result KcError B × Client
◌>>=◌ m f c = continue f (m c)

abbrev pub ◌>>◌ {ℓ} :
    {B : Type ℓ}
    → Kc (Unit {0})
    → (Client → Result KcError B × Client)
    → Client
    → Result KcError B × Client
m >> k = m >>= λ _. k

abbrev pub modify : (Client → Client) → Kc (Unit {0})
modify f c = (ok tt, f c)

abbrev pub require : Bool → Kc (Unit {0})
require true c = (ok tt, c)
require false c = (err unavailable, c)

abbrev pub tick : Client → Client
tick c = record c { ticks = suc c.ticks }

module _ (w : World) where
  unfoldable pub send : Request → Kc Reply
  send req c = (ok (w.reply c.ticks req), tick c)

  unfoldable pub read_time : Kc ℕ
  read_time c = (ok (w.time c.ticks), tick c)

  unfoldable pub read_monotonic : Kc ℕ
  read_monotonic c = (ok (w.monotonic c.ticks), tick c)
