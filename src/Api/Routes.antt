-- ===== src/Api/Routes.antt =====
-- `_validation_response` of controllers/api_keys.py: the answer of the two validate routes.
pub mod Faults
pub mod Keeping
pub mod Refusals
use k8s_stack_keycloak_api_k.Base.{
  ℕ, Str, String, codes, Bool, true, false, ◌||◌, Option, none, some, List, [], ◌∷◌, ◌==◌, nat_eq,
  if◌then◌else◌, Result, ok, err,
}
use k8s_stack_keycloak_api_k.Regex.{Regex, cls, seq, upto, fullmatch, is_alnum}
use k8s_stack_keycloak_api_k.Api.Http.{
  Codec, Setup, App, HttpError, Failure, http, crash, out_of_fuel, Handler, pure, raise, continue,
  ◌>>=◌, HttpRequest, getlist,
}
use k8s_stack_keycloak_api_k.Api.Credentials.{Mode, dedicated_api_key}
use k8s_stack_keycloak_api_k.Api.Validation.{Response, lift, validate_key}

-- `[A-Za-z0-9_-]{1,64}`
abbrev is_request_char : ℕ → Bool
is_request_char c = is_alnum c || (c == b'_' || c == b'-')

request_id_pattern : Regex
request_id_pattern = seq (cls is_request_char) (upto 63 is_request_char)

-- the request's own identifier, if it is sent once and has the form, else a fresh one
unfoldable pub request_id : Codec → List Str → Str
unfolding request_id_pattern
request_id codec (sent ∷ []) = if fullmatch request_id_pattern sent then sent else codec.uuid4_hex
request_id codec _ = codec.uuid4_hex

pub error_code : ℕ → String
error_code status = if status == 503 then "authentication_unavailable" else "authentication_failed"

-- What a route sends: a decision, or an error with the code in its body, and the request identifier.
pub data Answer : Type 0 where
  decided : Str → Response → Answer
  rejected : Str → String → HttpError → Answer

pub answered : Str → Result Failure Response × App → Result Failure Answer × App
unfolding error_code
answered id (ok r, s) = (ok (decided id r), s)
answered id (err (http e), s) = (ok (rejected id (error_code e.status) e), s)
answered id (err crash, s) = (err crash, s)
answered id (err out_of_fuel, s) = (err out_of_fuel, s)

module _ (setup : Setup) where
  pub presented_key : HttpRequest → Mode → Handler Response
  unfolding lift
  presented_key request mode = do
    key_value ← lift (dedicated_api_key setup.codec request mode)
    validate_key setup key_value

  -- `_validation_response`
  unfoldable pub validation_response : HttpRequest → Mode → Handler Answer
  unfolding request_id answered presented_key
  validation_response request mode s =
      answered (request_id setup.codec (getlist (codes "x-request-id") request))
        (presented_key request mode s)
