-- ===== src/Api/Validation.antt =====
-- `_validate_key` of controllers/api_keys.py and what it calls: the decision on a presented key.
pub mod Effective
pub mod Decisions
pub mod Outage
pub mod Keeping
use k8s_stack_keycloak_api_k.Base.{
  ℕ, ◌*◌, Str, String, codes, Bool, true, false, not, ◌&&◌, Option, none, some, List, [], ◌∷◌, ◌++◌,
  ◌==◌, nat_eq, str_eq, dedup, contains, filter, length, is_empty, ltb, if◌then◌else◌, Result, ok,
  err,
}
use k8s_stack_keycloak_api_k.Sorting.{sort, str_ord}
use k8s_stack_keycloak_api_k.Permissions.{is_valid_permission}
use k8s_stack_keycloak_api_k.Json.{Json, null, num, str, arr, obj, Items, nil, cons, end, field}
use k8s_stack_keycloak_api_k.Database.Keys.{ApiKeyMetadata}
use k8s_stack_keycloak_api_k.Database.Keys as Keys
use k8s_stack_keycloak_api_k.Managed.Grant.{
  ManagedApiKey, Raised, slot_fault, duplicate_verifiers, unicode_decode,
}
use k8s_stack_keycloak_api_k.Managed.Slots.{match, context_credential_id}
use k8s_stack_keycloak_api_k.Keycloak.Exec.{PrincipalEntitlements, Client, KcError, Kc}
use k8s_stack_keycloak_api_k.Keycloak.Exec as Exec
use k8s_stack_keycloak_api_k.Keycloak.Requests.{get_service_account_user_id, mark_unavailable}
use k8s_stack_keycloak_api_k.Keycloak.Entitlements.{get_principal_entitlements}
use k8s_stack_keycloak_api_k.Jwks.{Cache, invalidate}
use k8s_stack_keycloak_api_k.Api.Http.{
  Setup, App, Failure, crash, out_of_fuel, http_error, Handler, pure, raise, continue, or_raise,
  ◌>>=◌, ◌>>◌, require,
}
use k8s_stack_keycloak_api_k.Api.Tokens.{available_cache}

abbrev pub no_authorization : Failure
no_authorization = http_error 503 "Keycloak authorization unavailable"

abbrev pub invalid_key : Failure
invalid_key = http_error 401 "Invalid or expired key"

-- The outcome of a call of the client, put back into the shared state. `KeycloakUnavailableError`
-- discards the client's authorization state and the signing keys, and answers 503.
unfoldable pub settle {ℓ} : {A : Type ℓ} → Cache → Result KcError A × Client → Handler A
unfolding mark_unavailable invalidate
settle c (ok a, client) s = (ok a, record s { cache = some (record c { client = client }) })
settle c (err Exec.unavailable, client) s = (
  err no_authorization,
  record s { cache = some (invalidate (record c { client = mark_unavailable client })) },
)
settle c (err Exec.out_of_fuel, client) s =
    (err out_of_fuel, record s { cache = some (record c { client = client }) })

-- a call of `kc`, which is missing if the configuration is incomplete
unfoldable pub ask {ℓ} : {A : Type ℓ} → Kc A → Handler A
unfolding settle
ask call s = elim s.cache [ none ↦ (err no_authorization, s) | some c ↦ settle c (call c.client) s ]

-- `credential_kind`
pub data CredentialKind : Type 0 where
  user_api_key managed_api_key : CredentialKind

pub record Decision : Type 0 where
  pub credential_id : Str
  pub credential_kind : CredentialKind
  pub credential_name : Str
  pub expires_at : Option Str
  pub principal_id : Str
  pub account_email : Option Str
  pub permissions : List Str
  pub groups : List Str

texts : List Str → Items
texts [] = nil
texts (s ∷ ss) = cons (str s) (texts ss)

text_or_null : Option Str → Json
text_or_null none = null
text_or_null (some s) = str s

kind_text : CredentialKind → Str
kind_text user_api_key = codes "personal"
kind_text managed_api_key = codes "managed"

-- the value that the gateway reads, in the order of the program's dict
unfoldable pub auth_context : Str → Decision → Json
unfolding texts text_or_null kind_text
auth_context context_id d = obj (
    field (codes "contract_version") (num 1) (
      field (codes "principal_id") (str d.principal_id) (
        field (codes "account_email") (text_or_null d.account_email) (
          field (codes "permissions") (arr (texts d.permissions)) (
            field (codes "groups") (arr (texts d.groups)) (
              field (codes "credential_id") (str context_id)
                (field (codes "credential_kind") (str (kind_text d.credential_kind)) end)))))))

-- A decision, with the header `x-agentgateway-auth-context`.
pub record Response : Type 0 where
  pub decision : Decision
  pub context : Str

unfoldable pub lift {ℓ} : {A : Type ℓ} → Result Failure A → Handler A
lift r s = (r, s)

-- `sorted(p for p in set(grant).intersection(entitlements) if is_valid_permission(p))`
unfoldable pub effective : List Str → List Str → List Str
effective grant entitled =
    sort (filter is_valid_permission (filter (λ p. contains p entitled) (dedup grant)))

-- the decisions on a personal and on a managed key
abbrev pub personal_decision : ApiKeyMetadata → PrincipalEntitlements → Decision
personal_decision key entitled = record {
  credential_id = key.id;
  credential_kind = user_api_key;
  credential_name = key.name;
  expires_at = some key.expires_at;
  principal_id = key.user_id;
  account_email = entitled.account_email;
  permissions = effective key.permissions entitled.permissions;
  groups = sort entitled.groups;
}

abbrev pub managed_decision : ManagedApiKey → Str → PrincipalEntitlements → Decision
managed_decision key principal entitled = record {
  credential_id = key.key_id;
  credential_kind = managed_api_key;
  credential_name = key.name;
  expires_at = none;
  principal_id = principal;
  account_email = entitled.account_email;
  permissions = effective key.permissions entitled.permissions;
  groups = sort entitled.groups;
}

module _ (setup : Setup) where
  -- `_decision_response`
  unfoldable pub decision_response : Str → Decision → Result Failure Response
  unfolding auth_context
  decision_response context_id d =
      let context = setup.codec.dumps (auth_context context_id d) in
      if ltb (64 * 1024) (length context)
      then err (http_error 503 "Authorization context unavailable")
      else ok (record { decision = d; context = context })

  -- `_entitlements_or_error`
  unfoldable pub entitlements_or_error : Str → ℕ → Handler PrincipalEntitlements
  unfolding ask
  entitlements_or_error principal missing_status = do
    found ← ask (get_principal_entitlements setup.world setup.config setup.fuel principal)
    or_raise found (http_error missing_status "Keycloak principal is unavailable")

  -- `_managed_key_response`
  unfoldable pub managed_key_response : ManagedApiKey → Handler Response
  unfolding ask entitlements_or_error effective decision_response lift
  managed_key_response key = do
    account ← ask (get_service_account_user_id setup.world key.principal_client_id)
    principal ← or_raise account (http_error 401 "Managed credential principal unavailable")
    entitled ← entitlements_or_error principal 401
    lift (
        decision_response (context_credential_id setup.host key)
          (managed_decision key principal entitled))

  -- the personal key behind a secret that no managed key matches
  unfoldable pub personal_key_response : Str → Handler Response
  unfolding entitlements_or_error effective decision_response lift
  personal_key_response key_value s =
      (do
        key ← or_raise (Keys.get_key setup.platform setup.now key_value s.session) invalid_key
        entitled ← entitlements_or_error key.user_id 401
        lift (decision_response key.id (personal_decision key entitled)))
        s

  -- what `managed_api_keys.match` found or raised
  unfoldable pub matched_response : Str → Result Raised (Option ManagedApiKey) → Handler Response
  unfolding managed_key_response personal_key_response
  matched_response key_value (ok (some key)) s = managed_key_response key s
  matched_response key_value (ok none) s = personal_key_response key_value s
  matched_response key_value (err (slot_fault slot reason)) s =
      (err (http_error 503 "Managed credential configuration unavailable"), s)
  matched_response key_value (err duplicate_verifiers) s =
      (err (http_error 503 "Managed credential configuration unavailable"), s)
  matched_response key_value (err unicode_decode) s = (err crash, s)

  -- `_validate_key`
  unfoldable pub validate_key : Str → Handler Response
  unfolding matched_response
  validate_key key_value s =
      (do
        cache ← or_raise (available_cache setup s) no_authorization
        require (not (is_empty key_value)) (http_error 401 "An API key must be passed as a header")
        matched_response key_value (match setup.host setup.managed_slots key_value))
        s
