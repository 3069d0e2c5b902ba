-- ===== src/Tests/Keycloak.antt =====
-- A Keycloak that serves 101 memberships in two pages, and a client that answers from its cache.
use k8s_stack_keycloak_api_k.Base.{
  ℕ, zero, suc, ◌<◌, ◌≡◌, refl, ap, codes, Option, none, some, List, [], ◌∷◌, lookup, str_eq, take,
  drop, list_beq, arith, Result, ok,
}
use k8s_stack_keycloak_api_k.Regex.{fullmatch}
use k8s_stack_keycloak_api_k.Permissions.{is_valid_permission}
use k8s_stack_keycloak_api_k.Json.{Json, Items, str, arr, obj, cons, nil, items, field, end, get_or}
use k8s_stack_keycloak_api_k.Keycloak.Exec.{
  PrincipalEntitlements, Client, KcError, Reply, transport_error, response, Endpoint, groups_from,
  World, tick,
}
use k8s_stack_keycloak_api_k.Keycloak.Entitlements.{
  page_paths, collect_groups, get_principal_entitlements,
}
use k8s_stack_keycloak_api_k.Keycloak.Entitlements.Paging.{Serves, collect_groups_complete}
use k8s_stack_keycloak_api_k.Keycloak.Entitlements.Answers.{IsAnswer}
use k8s_stack_keycloak_api_k.Keycloak.Entitlements.Cache.{
  HoldsAnswers, Origin, get_principal_entitlements-IsAnswer, get_principal_entitlements_reused,
}
use k8s_stack_keycloak_api_k.Tests.Data.{alice, deaf, client, config, entitlements}

abbrev copies {ℓ} : {A : Type ℓ} → ℕ → A → List A
copies zero a = []
copies (suc n) a = a ∷ copies n a

abbrev membership : Json
membership = obj (field (codes "path") (str (47 ∷ 97 ∷ [])) end)

abbrev memberships : List Json
memberships = copies 101 membership

abbrev as_items : List Json → Items
as_items [] = nil
as_items (j ∷ js) = cons j (as_items js)

items-as_items : (js : List Json) → items (as_items js) ≡ js
items-as_items [] = refl
items-as_items (j ∷ js) = ap (λ l. j ∷ l) (items-as_items js)

abbrev page : ℕ → Json
page first = arr (as_items (take 100 (drop first memberships)))

abbrev answer : Endpoint → Reply
answer (groups_from principal first) = response 200 (some (page first))
answer _ = transport_error

abbrev paging : World
paging = record {
  reply = λ n r. answer r.endpoint;
  monotonic = λ n. n;
  time = λ n. 0;
  decode_payload = λ s. none;
  to_float = λ j. none;
}

serves : Serves paging alice (116 ∷ []) 100 memberships
serves = record {
  page = page;
  listed = λ first. ap some (items-as_items (take 100 (drop first memberships)));
  reply = λ n first. refl;
  fresh = λ n. refl;
}

abbrev authorized : Client
authorized = record client { token = some (116 ∷ []); token_expiry = 100 }

paths_listed : page_paths memberships ≡ some (copies 101 (47 ∷ 97 ∷ []))
unfolding page_paths get_or codes list_beq
paths_listed = refl

collect_groups_complete_example :
    (collect_groups paging 2 alice 0 [] authorized).0 ≡ ok (copies 101 (47 ∷ 97 ∷ []))
collect_groups_complete_example =
    collect_groups_complete paging alice (116 ∷ []) 100 memberships serves 2 authorized
      (copies 101 (47 ∷ 97 ∷ [])) refl refl paths_listed (omega arith)

cached :
    get_principal_entitlements deaf config 1 alice client ≡ (ok (some entitlements), tick client)
unfolding get_principal_entitlements list_beq
cached = refl

pub holds : HoldsAnswers client.entitlement_cache
unfolding is_valid_permission fullmatch codes
holds = (((refl, tt), (refl, tt)), tt)

get_principal_entitlements-IsAnswer_example :
    HoldsAnswers (tick client).entitlement_cache
    × ((value : Option PrincipalEntitlements)
        → ◌≡◌ {A = Result KcError (Option PrincipalEntitlements)}
            (ok (some entitlements))
            (ok value)
        → IsAnswer value)
get_principal_entitlements-IsAnswer_example =
    get_principal_entitlements-IsAnswer deaf config 1 alice client (tick client)
      (ok (some entitlements)) holds cached

get_principal_entitlements_reused_example :
    (until : ℕ) × Origin deaf config 1 alice client (some entitlements) until (tick client)
    × (lookup alice (tick client).entitlement_cache ≡ some (until, some entitlements))
    × ((later : Client)
        → later.entitlement_cache ≡ (tick client).entitlement_cache
        → deaf.monotonic later.ticks < until
        → get_principal_entitlements deaf config 1 alice later
          ≡ (ok (some entitlements), tick later))
get_principal_entitlements_reused_example =
    get_principal_entitlements_reused deaf config 1 alice client (tick client) (some entitlements)
      cached
