-- ===== src/Tests/Managed.antt =====
-- Managed keys: files in memory, one good slot and some faulty ones.
use k8s_stack_keycloak_api_k.Base.{
  ℕ, ◌≡◌, ◌↔◌, refl, Str, codes, some, [], ◌∷◌, ◌==◌, str_eq, list_beq, subset, dedup,
  if◌then◌else◌, ok, err,
}
use mathlib.Core.List.{Memᴰ}
use k8s_stack_keycloak_api_k.Sorting.{sort}
use k8s_stack_keycloak_api_k.Regex.{fullmatch}
use k8s_stack_keycloak_api_k.Permissions.{is_valid_permission}
use k8s_stack_keycloak_api_k.Json.{Json, num, str, arr, obj, cons, nil, field, end, get_or, keys}
use k8s_stack_keycloak_api_k.Managed.Grant.{
  ManagedApiKey, Raised, slot_fault, incomplete, parse_grant,
}
use k8s_stack_keycloak_api_k.Managed.Grant.Valid.{IsGrant, parse_grant-IsGrant}
use k8s_stack_keycloak_api_k.Managed.Slots.{
  Reading, text, os_error, decode_error, Host, Slot, load_slot, match,
}
use k8s_stack_keycloak_api_k.Managed.Slots.Matching.{Matched, match_iff}
use k8s_stack_keycloak_api_k.Managed.Slots.Faults.{match_fails_closed}

abbrev grant_file : Str
grant_file = 103 ∷ []

abbrev verifier_file : Str
verifier_file = 118 ∷ []

abbrev binary_file : Str
binary_file = 0 ∷ []

abbrev zeros : ℕ → Str
zeros ℕ.zero = []
zeros (ℕ.suc n) = 48 ∷ zeros n

abbrev digest : Str
digest = zeros 64

abbrev grant_json : Json
grant_json = obj (
    field (codes "version") (num 2) (
      field (codes "id") (str (codes "k1")) (
        field (codes "name") (str (codes "batch")) (
          field (codes "principal")
            (obj (
              field (codes "kind") (str (codes "service_account"))
                (field (codes "client_id") (str (codes "svc")) end)))
            (field (codes "permissions") (arr (cons (str (codes "llm:invoke")) nil)) end)))))

abbrev contents : Str → Reading
contents file =
    if file == grant_file
    then text []
    else if file == verifier_file
    then text digest
    else if file == binary_file
    then decode_error
    else os_error

abbrev pub host : Host
host = record {
  read_text = contents;
  loads = λ s. some grant_json;
  sha256 = λ s. s;
  uuid5 = λ s. s;
}

abbrev key : ℕ → ManagedApiKey
key n = record {
  slot = n;
  key_id = codes "k1";
  name = codes "batch";
  principal_client_id = codes "svc";
  permissions = codes "llm:invoke" ∷ [];
}

abbrev pub good : Slot
good = record { index = 1; grant_file = grant_file; verifier_file = verifier_file }

abbrev half : Slot
half = record { index = 2; grant_file = grant_file; verifier_file = [] }

accepted : (n : ℕ) → parse_grant host.loads n [] ≡ ok (key n)
unfolding parse_grant codes fullmatch is_valid_permission subset list_beq get_or keys sort dedup
accepted n = refl

parse_grant-IsGrant_example : IsGrant 1 (key 1)
parse_grant-IsGrant_example = parse_grant-IsGrant host.loads 1 [] (key 1) (accepted 1)

match_iff_example :
    (match host (good ∷ []) digest ≡ ok (some (key 1))) ↔ Matched host (good ∷ []) digest (key 1)
match_iff_example = match_iff host (good ∷ []) digest (key 1)

half_fails : load_slot host half ≡ err (slot_fault 2 incomplete)
unfolding load_slot
half_fails = refl

match_fails_closed_example :
    (e : Raised) × ((secret : Str) → match host (good ∷ half ∷ []) secret ≡ err e)
match_fails_closed_example =
    match_fails_closed host (good ∷ half ∷ []) half (slot_fault 2 incomplete)
      (Memᴰ.tail (Memᴰ.head refl)) half_fails

abbrev pub binary : Slot
binary = record { index = 1; grant_file = binary_file; verifier_file = verifier_file }

pub undecodable : host.read_text binary_file ≡ decode_error
unfolding list_beq
undecodable = refl
