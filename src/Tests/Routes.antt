-- ===== src/Tests/Routes.antt =====
-- A request where one of the managed slots cannot be read.
use k8s_stack_keycloak_api_k.Base.{
  ◌≡◌, ◌↔◌, refl, codes, [], ◌∷◌, list_beq, str_eq, ◌++◌, dedup, subset, ok, err,
}
use k8s_stack_keycloak_api_k.Sorting.{sort, str_ord}
use k8s_stack_keycloak_api_k.Regex.{fullmatch}
use k8s_stack_keycloak_api_k.Permissions.{is_valid_permission}
use k8s_stack_keycloak_api_k.Managed.Grant.{strip}
use k8s_stack_keycloak_api_k.Jwks.{is_available}
use k8s_stack_keycloak_api_k.Api.Http.{Setup}
use k8s_stack_keycloak_api_k.Api.Credentials.{neurwerk}
use k8s_stack_keycloak_api_k.Api.Tokens.{available_cache}
use k8s_stack_keycloak_api_k.Api.Routes.{rejected, request_id, validation_response}
use k8s_stack_keycloak_api_k.Json.{keys, get_or}
use k8s_stack_keycloak_api_k.Managed.Grant.{unicode_decode, parse_grant, parse_verifier}
use k8s_stack_keycloak_api_k.Managed.Slots.{load_slot}
use k8s_stack_keycloak_api_k.Managed.Slots.Faults.{Loads, IsUndecodable}
use k8s_stack_keycloak_api_k.Api.Http.{crash, getlist}
use k8s_stack_keycloak_api_k.Api.Routes.Faults.{broken_slot_answer}
use k8s_stack_keycloak_api_k.Tests.Managed.{host, good, binary}
use k8s_stack_keycloak_api_k.Tests.Data.{row, setup, app, cache}
use k8s_stack_keycloak_api_k.Tests.Api.{request, sent}

-- the second of two managed keys has a grant file that is not UTF-8
abbrev with_binary : Setup
with_binary = record setup { host = host; managed_slots = good ∷ binary ∷ [] }

good-Loads : Loads host good
unfolding load_slot parse_grant codes fullmatch is_valid_permission subset list_beq get_or keys sort
    dedup parse_verifier strip
good-Loads = (_, refl)

binary_fails : load_slot host binary ≡ err unicode_decode
unfolding load_slot list_beq
binary_fails = refl

broken_slot_answer_example :
    ((validation_response with_binary (request (codes "Bearer " ++ row.key_hash)) neurwerk app).1
      ≡ app)
    × (((validation_response with_binary (request (codes "Bearer " ++ row.key_hash)) neurwerk app).0
          ≡ err crash)
        ↔ IsUndecodable host binary)
    × ((IsUndecodable host binary → ⊥)
        → (validation_response with_binary
            (request (codes "Bearer " ++ row.key_hash))
            neurwerk
            app).0
          ≡ ok (
              rejected [] "authentication_unavailable"
                (record { status = 503; detail = "Managed credential configuration unavailable" })))
unfolding available_cache is_available request_id getlist list_beq codes
broken_slot_answer_example =
    broken_slot_answer with_binary (good ∷ []) [] binary unicode_decode
      (request (codes "Bearer " ++ row.key_hash)) neurwerk row.key_hash cache app refl
      (good-Loads, tt) binary_fails refl sent refl
