-- ===== src/Tests/System.antt =====
-- A day of the program: a key is used, a second one is made, the first is revoked, and then Keycloak
-- goes away.
use k8s_stack_keycloak_api_k.Base.{
  ◌≡◌, refl, Str, codes, true, false, none, some, List, [], ◌∷◌, ◌++◌, map, list_beq, dedup, subset,
}
use k8s_stack_keycloak_api_k.Json.{str, field, end, get_or}
use k8s_stack_keycloak_api_k.Sorting.{sort}
use k8s_stack_keycloak_api_k.Permissions.{is_valid_permission}
use k8s_stack_keycloak_api_k.Managed.Slots.{match}
use k8s_stack_keycloak_api_k.Keycloak.Entitlements.{get_principal_entitlements}
use k8s_stack_keycloak_api_k.Database.Keys.{create_key, revoke_key}
use k8s_stack_keycloak_api_k.Database.Keys as Keys
use k8s_stack_keycloak_api_k.Jwks as Jwks
use k8s_stack_keycloak_api_k.Regex.{fullmatch}
use k8s_stack_keycloak_api_k.Database.Session.{ApiKey, clashes}
use k8s_stack_keycloak_api_k.Jwks.{Cache}
use k8s_stack_keycloak_api_k.Jwks.Document.{parse_jwks-Usable}
use k8s_stack_keycloak_api_k.Jwks.Thread.{Activity}
use k8s_stack_keycloak_api_k.Api.Http.{Setup}
use k8s_stack_keycloak_api_k.Api.Credentials.{neurwerk, dedicated_api_key}
use k8s_stack_keycloak_api_k.Api.Validation.{validate_key}
use k8s_stack_keycloak_api_k.Api.Management.{CreateApiKeyRequest}
use k8s_stack_keycloak_api_k.Api.Sound.{Sound}
use k8s_stack_keycloak_api_k.System.{
  Running, Event, serve, turn, validate, create, revoke, probe, run,
}
use k8s_stack_keycloak_api_k.System.Kept.{run-Sound}
use k8s_stack_keycloak_api_k.Tests.Data.{alice, row, draw, session, deaf, client, codec, setup}
use k8s_stack_keycloak_api_k.Tests.Jwks.{raw_key, document, parsed}
use k8s_stack_keycloak_api_k.Tests.Keycloak.{holds}

-- every token is Alice's
abbrev open_setup : Setup
open_setup = record setup {
  codec = record codec {
    unverified_header = λ s. some (field (codes "kid") (str (codes "a")) end);
    decode = λ t k a i. some (field (codes "sub") (str alice) end);
  };
}

abbrev morning : Running
morning = record {
  app = record {
    session = session;
    cache = some (record { client = client; keys = some ((codes "a", raw_key) ∷ []) });
  };
  activity = Activity.looping;
}

abbrev token : Str
token = codes "Bearer t"

abbrev body : CreateApiKeyRequest
body = record {
  name = codes "second";
  permissions = codes "llm:invoke" ∷ [];
  expires_in_days = 1;
  target_user_id = none;
}

abbrev day : List Event
day =
    serve open_setup (
      validate (record { headers = (codes "authorization", codes "Bearer " ++ row.key_hash) ∷ [] })
        neurwerk)
    ∷ serve open_setup (create (some token) draw body)
    ∷ turn deaf false
    ∷ serve open_setup (revoke (some token) row.id)
    ∷ turn deaf false
    ∷ turn deaf false
    ∷ serve open_setup (probe true)
    ∷ []

left : map (λ (r : ApiKey). r.id) (run day morning).app.session.rows ≡ draw.key_id ∷ []
unfolding run list_beq codes fullmatch dedup is_valid_permission dedicated_api_key validate_key
    match Keys.get_key get_principal_entitlements get_or Jwks.get_key subset sort create_key
    revoke_key
left = refl

run-Sound_example : Sound (run day morning).app
unfolding clashes
run-Sound_example = run-Sound day morning (
  record { no_pending = refl; no_doomed = refl },
  (refl, tt),
  (holds, λ keys e. parse_jwks-Usable document keys (cc (parsed, e))),
)
