-- ===== src/Tests/Usage.antt =====
-- Usage metadata of Alice's key, and of a managed key whose service account Keycloak knows.
use k8s_stack_keycloak_api_k.Base.{
  ◌≡◌, refl, Str, codes, none, some, List, [], ◌∷◌, list_beq, any, if◌then◌else◌, ok, err, dedup,
  subset,
}
use k8s_stack_keycloak_api_k.Regex.{fullmatch}
use k8s_stack_keycloak_api_k.Permissions.{is_valid_permission}
use k8s_stack_keycloak_api_k.Json.{str, obj, field, end, get_or, keys}
use k8s_stack_keycloak_api_k.Database.Session.{clashes}
use k8s_stack_keycloak_api_k.Keycloak.Exec.{
  Client, World, Reply, transport_error, response, Endpoint, service_account,
}
use k8s_stack_keycloak_api_k.Managed.Slots.{metadata, context_credential_id}
use k8s_stack_keycloak_api_k.Managed.Grant.{strip, parse_grant, parse_verifier}
use k8s_stack_keycloak_api_k.Keycloak.Requests.{get_service_account_user_id}
use k8s_stack_keycloak_api_k.Api.Http.{Setup, App, http_error}
use k8s_stack_keycloak_api_k.Api.Tokens.{CurrentUser}
use k8s_stack_keycloak_api_k.Api.Usage.{
  personal, managed, UsageKeyReference, UsageKeyMetadata, is_foreign, usage_admin,
  usage_key_metadata,
}
use k8s_stack_keycloak_api_k.Api.Usage.Own.{look_up_each, usage_key_metadata_self}
use k8s_stack_keycloak_api_k.Api.Usage.Sources.{Disclosed, usage_key_metadata-Disclosed}
use k8s_stack_keycloak_api_k.Tests.Data.{alice, bob, row, setup, app, user, cache, client}
use k8s_stack_keycloak_api_k.Tests.Managed.{host, good}

abbrev own : UsageKeyReference
own = record { id = row.id; user_id = alice; kind = personal }

usage_key_metadata_self_example : usage_key_metadata setup (own ∷ []) user app ≡ (
    if any (is_foreign user) (own ∷ [])
    then (err (http_error 403 "Usage metadata is self-only"), app)
    else (ok (look_up_each (row ∷ []) (own ∷ [])), app))
unfolding clashes
usage_key_metadata_self_example =
    usage_key_metadata_self setup (own ∷ []) user app
      (record { no_pending = refl; no_doomed = refl }) (refl, tt) refl

abbrev shared_id : Str
shared_id = codes "keycloak-api-key-bridge/managed/svc/k1"

abbrev shared : UsageKeyReference
shared = record { id = shared_id; user_id = bob; kind = managed }

abbrev auditor : CurrentUser
auditor = record { user_id = alice; realm_roles = usage_admin ∷ [] }

abbrev account : Endpoint → Reply
account (service_account uuid) = response 200 (some (obj (field (codes "id") (str bob) end)))
account _ = transport_error

abbrev knowing : World
knowing = record {
  reply = λ n r. account r.endpoint;
  monotonic = λ n. n;
  time = λ n. 0;
  decode_payload = λ s. none;
  to_float = λ j. none;
}

abbrev with_managed : Setup
with_managed = record setup { world = knowing; host = host; managed_slots = good ∷ [] }

abbrev ready : Client
ready = record client {
  token = some (116 ∷ []);
  token_expiry = 100;
  client_ids = (codes "svc", 117 ∷ []) ∷ [];
}

abbrev before : App
before = record app { cache = some (record cache { client = ready }) }

abbrev after : App
after = record app { cache = some (record cache { client = record ready { ticks = 2 } }) }

abbrev names_shown : List UsageKeyMetadata
names_shown =
    record { id = shared_id; user_id = bob; kind = managed; name = codes "batch" }
    ∷ record { id = row.id; user_id = alice; kind = personal; name = row.name }
    ∷ []

audited :
    usage_key_metadata with_managed (shared ∷ own ∷ []) auditor before ≡ (ok names_shown, after)
unfolding usage_key_metadata list_beq codes metadata strip parse_grant subset keys get_or fullmatch
    is_valid_permission dedup parse_verifier context_credential_id get_service_account_user_id
audited = refl

usage_key_metadata-Disclosed_example :
    Disclosed with_managed (shared ∷ own ∷ []) before names_shown after
    × (after.session ≡ before.session)
usage_key_metadata-Disclosed_example =
    usage_key_metadata-Disclosed with_managed (shared ∷ own ∷ []) before auditor names_shown after
      (record { no_pending = refl; no_doomed = refl }) audited
