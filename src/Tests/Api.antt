-- ===== src/Tests/Api.antt =====
-- Requests of Alice, whose entitlements are cached, and of a credential that is no key.
use k8s_stack_keycloak_api_k.Base.{
  ◌≡◌, ◌≢◌, ◌↔◌, ◌⊎◌, inl, refl, Str, codes, true, false, ◌&&◌, Option, none, some, List, [], ◌∷◌,
  list_beq, str_eq, ◌++◌, contains, dedup, subset, Distinct, lookup, ok, err,
}
use k8s_stack_keycloak_api_k.Sorting.{sort, str_ord}
use k8s_stack_keycloak_api_k.Sorting.Laws.{IsSortedBy}
use k8s_stack_keycloak_api_k.Regex.{fullmatch}
use k8s_stack_keycloak_api_k.Permissions.{is_valid_permission}
use k8s_stack_keycloak_api_k.Database.Session.{ApiKey, get_row}
use k8s_stack_keycloak_api_k.Database.Keys.{key_to_dict, get_key, create_key, new_row}
use k8s_stack_keycloak_api_k.Managed.Grant.{strip}
use k8s_stack_keycloak_api_k.Managed.Slots.{match}
use k8s_stack_keycloak_api_k.Keycloak.Exec.{Client, unavailable, tick}
use k8s_stack_keycloak_api_k.Keycloak.Entitlements.{get_principal_entitlements}
use k8s_stack_keycloak_api_k.Jwks.{is_available}
use k8s_stack_keycloak_api_k.Api.Http.{Setup, App, HttpRequest}
use k8s_stack_keycloak_api_k.Api.Credentials.{neurwerk, dedicated_api_key}
use k8s_stack_keycloak_api_k.Api.Credentials.Format.{Bears, dedicated_api_key_iff}
use k8s_stack_keycloak_api_k.Api.Tokens.{available_cache}
use k8s_stack_keycloak_api_k.Api.Validation.{
  no_authorization, Response, user_api_key, effective, decision_response, validate_key,
}
use k8s_stack_keycloak_api_k.Api.Validation.Effective.{effective_lem}
use k8s_stack_keycloak_api_k.Api.Validation.Decisions.{Grounds, validate_key_sound}
use k8s_stack_keycloak_api_k.Api.Validation.Outage.{outage_fails_closed}
use k8s_stack_keycloak_api_k.Api.Management.{
  admin_role_name, CreateApiKeyRequest, Created, resolve_target_user_id, revoke_api_key,
  create_api_key, validated_request,
}
use k8s_stack_keycloak_api_k.Api.Management.Authority.{
  resolve_target_user_id_lem, revoke_api_key_allowed, Granted, create_api_key-Granted,
}
use k8s_stack_keycloak_api_k.Api.Management.Requests.{IsRequest, validated_request_iff}
use k8s_stack_keycloak_api_k.Api.Discovery.{
  is_json_content, is_invalid_key, gateway_caller_permissions,
}
use k8s_stack_keycloak_api_k.Api.Discovery.Answers.{
  AreAnswered, gateway_caller_permissions-AreAnswered,
}
use k8s_stack_keycloak_api_k.Api.Routes.{Answer, rejected, validation_response}
use k8s_stack_keycloak_api_k.Api.Routes.Refusals.{IsRejection, validation_response-IsRejection}
use k8s_stack_keycloak_api_k.Tests.Data.{
  alice, bob, secret, draw, row, session, setup, app, user, cache, client, platform, codec,
}

abbrev llm : Str
llm = codes "llm:invoke"

abbrev read_cache : App
read_cache = record app { cache = some (record cache { client = tick client }) }

abbrev response : Response
response = record {
  decision = record {
    credential_id = row.id;
    credential_kind = user_api_key;
    credential_name = row.name;
    expires_at = some [];
    principal_id = alice;
    account_email = none;
    permissions = llm ∷ [];
    groups = [];
  };
  context = [];
}

validated : validate_key setup row.key_hash app ≡ (ok response, read_cache)
unfolding validate_key available_cache match get_key list_beq get_principal_entitlements effective
    decision_response is_available dedup sort codes is_valid_permission fullmatch
validated = refl

validate_key_sound_example :
    Grounds setup row.key_hash app response.decision × (read_cache.session ≡ session)
validate_key_sound_example = validate_key_sound setup row.key_hash app read_cache response validated

effective_lem_example :
    ((p : Str)
      → contains p (effective (llm ∷ bob ∷ []) (bob ∷ llm ∷ []))
        ≡ (is_valid_permission p && (contains p (bob ∷ llm ∷ []) && contains p (llm ∷ bob ∷ []))))
    × Distinct (effective (llm ∷ bob ∷ []) (bob ∷ llm ∷ []))
    × IsSortedBy str_ord.le? (effective (llm ∷ bob ∷ []) (bob ∷ llm ∷ []))
effective_lem_example = effective_lem (llm ∷ bob ∷ []) (bob ∷ llm ∷ [])

-- Alice's entitlements are not cached here.
abbrev forgetful : App
forgetful = record app {
  cache = some (record cache { client = record client { entitlement_cache = [] } });
}

abbrev tried : Client
tried = tick (tick (record client { entitlement_cache = [] }))

no_answer :
    get_principal_entitlements setup.world setup.config setup.fuel alice
      (record client { entitlement_cache = [] })
    ≡ (err unavailable, tried)
unfolding get_principal_entitlements
no_answer = refl

available :
    available_cache setup forgetful
    ≡ some (record cache { client = record client { entitlement_cache = [] } })
unfolding available_cache is_available
available = refl

unmatched : match setup.host setup.managed_slots row.key_hash ≡ ok none
unfolding match dedup
unmatched = refl

known : get_key platform 3 row.key_hash session ≡ some (key_to_dict platform row)
unfolding get_key list_beq key_to_dict
known = refl

outage_fails_closed_example :
    (t : App) × (validate_key setup row.key_hash forgetful ≡ (err no_authorization, t))
    × ((later : Setup) (other : Str) → validate_key later other t ≡ (err no_authorization, t))
unfolding key_to_dict
outage_fails_closed_example =
    outage_fails_closed setup row.key_hash forgetful
      (record cache { client = record client { entitlement_cache = [] } }) tried refl available
      (inl (key_to_dict platform row, unmatched, known, no_answer))

abbrev body : CreateApiKeyRequest
body = record {
  name = codes "laptop";
  permissions = llm ∷ [];
  expires_in_days = 1;
  target_user_id = none;
}

abbrev created : Created
created = record { id = draw.key_id; api_key = secret; key_prefix = secret; permissions = llm ∷ [] }

abbrev one_more : App
one_more = record read_cache {
  session = record session {
    rows =
        new_row platform draw (record {
          name = codes "laptop";
          user_id = alice;
          permissions = llm ∷ [];
          validity_days = 1;
          created_by_user_id = none;
          max_keys_per_user = 2;
        })
        ∷ session.rows;
  };
}

creates : create_api_key setup draw body user app ≡ (ok created, one_more)
unfolding create_api_key get_principal_entitlements list_beq subset dedup codes create_key
creates = refl

create_api_key-Granted_example : Granted setup draw body user app created one_more
create_api_key-Granted_example =
    create_api_key-Granted setup draw body user app one_more created creates

resolve_target_user_id_lem_example :
    (resolve_target_user_id (some bob) user ≡ ok (bob, some alice)) ↔ (
      ((bob ≡ alice)
        × (◌≡◌ {A = Option Str} (some alice) none)
        × ((◌≡◌ {A = Option Str} (some bob) none) ⊎ (some bob ≡ some alice)))
      ⊎ ((some bob ≡ some bob)
          × (bob ≢ alice)
          × (some alice ≡ some alice)
          × (contains admin_role_name user.realm_roles ≡ true)))
resolve_target_user_id_lem_example = resolve_target_user_id_lem (some bob) user bob (some alice)

revoke_api_key_allowed_example : ((revoke_api_key row.id user app).0 ≡ ok tt) ↔ (
    (key : ApiKey) × (get_row row.id session ≡ some key)
    × ((contains admin_role_name user.realm_roles ≡ true) ⊎ (key.user_id ≡ alice)))
revoke_api_key_allowed_example =
    revoke_api_key_allowed row.id user app (record { no_pending = refl; no_doomed = refl })

validated_request_iff_example :
    (validated_request body ≡ some body)
    ↔ (IsRequest body × (body ≡ record body { permissions = sort body.permissions }))
validated_request_iff_example = validated_request_iff body body

abbrev pub request : Str → HttpRequest
request authorization = record {
  headers =
      (codes "content-type", codes "application/json")
      ∷ (codes "authorization", authorization)
      ∷ [];
}

dedicated_api_key_iff_example :
    (dedicated_api_key codec (request (codes "Bearer " ++ row.key_hash)) neurwerk ≡ ok row.key_hash)
    ↔ Bears (request (codes "Bearer " ++ row.key_hash)) row.key_hash
dedicated_api_key_iff_example =
    dedicated_api_key_iff codec (request (codes "Bearer " ++ row.key_hash)) row.key_hash

asked :
    gateway_caller_permissions setup (request (codes "Bearer " ++ row.key_hash)) bob app
    ≡ (ok (llm ∷ []), read_cache)
unfolding gateway_caller_permissions list_beq codes strip dedicated_api_key fullmatch validate_key
    is_available match dedup get_key get_principal_entitlements sort is_valid_permission
asked = refl

gateway_caller_permissions-AreAnswered_example : AreAnswered (llm ∷ [])
gateway_caller_permissions-AreAnswered_example =
    gateway_caller_permissions-AreAnswered setup (request (codes "Bearer " ++ row.key_hash)) bob app
      read_cache (llm ∷ []) asked

abbrev closed : App
closed = record app { cache = none }

is_json : is_json_content (request (codes "Bearer " ++ row.key_hash)) ≡ true
unfolding is_json_content codes list_beq strip
is_json = refl

pub sent :
    dedicated_api_key setup.codec (request (codes "Bearer " ++ row.key_hash)) neurwerk
    ≡ ok row.key_hash
unfolding dedicated_api_key list_beq codes fullmatch
sent = refl

refused : validate_key setup row.key_hash closed ≡ (err no_authorization, closed)
unfolding validate_key available_cache
refused = refl

bound : ◌≡◌ {A = Option (List Str)} (lookup bob setup.oidc_clients_by_binding) (some (bob ∷ []))
unfolding list_beq
bound = refl

other : is_invalid_key no_authorization ≡ false
unfolding is_invalid_key
other = refl

abbrev refusal : Answer
refusal =
    rejected [] "authentication_unavailable"
      (record { status = 503; detail = "Keycloak authorization unavailable" })

rejects :
    validation_response setup (request (codes "Bearer " ++ row.key_hash)) neurwerk closed
    ≡ (ok refusal, closed)
unfolding validation_response dedicated_api_key list_beq codes fullmatch validate_key
    available_cache
rejects = refl

validation_response-IsRejection_example : IsRejection refusal
validation_response-IsRejection_example =
    validation_response-IsRejection setup (request (codes "Bearer " ++ row.key_hash)) neurwerk
      closed closed refusal rejects
