-- ===== src/Api/Discovery.antt =====
-- `gateway_caller_permissions` of controllers/api_keys.py: what a caller of the gateway may use.
pub mod Answers
pub mod Keeping
use k8s_stack_keycloak_api_k.Base.{
  ℕ, Str, String, codes, Bool, true, false, not, ◌&&◌, ◌||◌, Option, none, some, List, [], ◌∷◌,
  ◌++◌, ◌==◌, nat_eq, str_eq, dedup, lookup, contains, filter, is_empty, head?, leb, if◌then◌else◌,
  Result, ok, err,
}
use text.Mathlib.Text.{◌==◌ as string_eq}
use k8s_stack_keycloak_api_k.Sorting.{sort, str_ord}
use k8s_stack_keycloak_api_k.Permissions.{is_valid_permission}
use k8s_stack_keycloak_api_k.Json.{
  Json, Fields, get, get_or, as_str, as_list, as_dict, as_nonempty_str, is_text, all_texts, arr,
  obj, nil, end,
}
use k8s_stack_keycloak_api_k.Managed.Grant.{strip}
use k8s_stack_keycloak_api_k.Api.Http.{
  Setup, App, Failure, http, crash, out_of_fuel, HttpError, http_error, Handler, pure, raise,
  continue, or_raise, ◌>>=◌, ◌>>◌, require, HttpRequest, getlist,
}
use k8s_stack_keycloak_api_k.Api.Credentials.{neurwerk, lower, dedicated_api_key}
use k8s_stack_keycloak_api_k.Api.Tokens.{verified_token}
use k8s_stack_keycloak_api_k.Api.Validation.{Response, validate_key}

-- `value.split(";", 1)[0]`
before_semicolon : Str → Str
before_semicolon [] = []
before_semicolon (c ∷ s) = let rest = before_semicolon s in if c == b';' then [] else c ∷ rest

unfoldable pub is_json_content : HttpRequest → Bool
unfolding before_semicolon getlist
is_json_content request = elim (head? (getlist (codes "content-type") request)) [
  | none ↦ false
  | some value ↦ lower (strip (before_semicolon value)) == codes "application/json"
]

abbrev pub invalid_permissions : Failure
invalid_permissions = http_error 403 "Invalid gateway permissions"

-- the failure on which a credential is tried as a token
unfoldable pub is_invalid_key : Failure → Bool
is_invalid_key (http e) = nat_eq.alike e.status 401 && string_eq e.detail "Invalid or expired key"
is_invalid_key crash = false
is_invalid_key out_of_fuel = false

pub lift {ℓ} : {A : Type ℓ} → Result Failure A → Handler A
lift r s = (r, s)

module _ (setup : Setup) where
  -- `azp` is the gateway's own client or one that the binding approves
  unfoldable pub is_approved : List Str → Json → Bool
  is_approved approved azp = elim (as_str azp) [
    | none ↦ false
    | some client ↦ client == setup.agentgateway_client_id || contains client approved
  ]

  -- the roles of the gateway's client in a payload
  unfoldable pub gateway_roles : Fields → Option (List Str)
  gateway_roles payload = elim (as_dict (get_or (codes "resource_access") (obj end) payload)) [
    | none ↦ none
    | some access ↦ elim (as_dict (get_or setup.agentgateway_client_id (obj end) access)) [
      | none ↦ none
      | some gateway ↦ elim (as_list (get_or (codes "roles") (arr nil) gateway)) [
        | none ↦ none
        | some roles ↦ all_texts roles
      ]
    ]
  ]

  -- the second half: the credential as a token for the gateway
  unfoldable pub token_permissions : List Str → Str → Handler (List Str)
  unfolding verified_token is_approved gateway_roles
  token_permissions approved credential = do
    payload ←
        verified_token setup (some (codes "Bearer " ++ credential)) setup.agentgateway_client_id
    require (is_text (codes "Bearer") (get (codes "typ") payload))
        (http_error 401 "An access token is required")
    sub ←
        or_raise (as_nonempty_str (get (codes "sub") payload))
          (http_error 401 "Invalid gateway identity")
    require (is_approved approved (get (codes "azp") payload))
        (http_error 403 "Client not approved for gateway access")
    roles ← or_raise (gateway_roles payload) invalid_permissions
    pure (sort (dedup (filter is_valid_permission roles)))

  pub key_or_token :
      List Str → Str → Result Failure Response × App → Result Failure (List Str) × App
  unfolding is_invalid_key token_permissions
  key_or_token approved credential (ok r, s) = (ok r.decision.permissions, s)
  key_or_token approved credential (err e, s) =
      if is_invalid_key e then token_permissions approved credential s else (err e, s)

  unfoldable pub gateway_caller_permissions : HttpRequest → Str → Handler (List Str)
  unfolding is_json_content key_or_token lift
  gateway_caller_permissions request binding_id = do
    require (is_json_content request) (http_error 415 "Content-Type must be application/json")
    approved ←
        or_raise (lookup binding_id setup.oidc_clients_by_binding)
          (http_error 403 "Unknown or disabled discovery binding")
    credential ← lift (dedicated_api_key setup.codec request neurwerk)
    λ s. key_or_token approved credential (validate_key setup credential s)
