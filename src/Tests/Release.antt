-- ===== src/Tests/Release.antt =====
-- A project and a lock file of version 1.2.3, and the tags v1.2.3 and v1.2.2.
use k8s_stack_keycloak_api_k.Base.{
  ◌≡◌, ◌≢◌, ◌↔◌, refl, Str, codes, some, [], ◌∷◌, list_beq, length, ok,
}
use k8s_stack_keycloak_api_k.Regex.{is_digit, fullmatch}
use k8s_stack_keycloak_api_k.Json.{Fields, str, arr, obj, cons, nil, field, end, get_or}
use k8s_stack_keycloak_api_k.Release.{Sources, verify_release_tag, main}
use k8s_stack_keycloak_api_k.Release.Verified.{IsRelease, main_iff}

abbrev versioned : Fields
versioned = field (codes "name") (str (codes "example")) (
    field (codes "version") (str (codes "1.2.3"))
      (field (codes "source") (obj (field (codes "editable") (str (codes ".")) end)) end))

abbrev files : Sources
files = record {
  project_file = some (field (codes "project") (obj versioned) end);
  lock_file = some (field (codes "package") (arr (cons (obj versioned) nil)) end);
  is_decimal = is_digit;
}

accepts : verify_release_tag files (codes "v1.2.3") ≡ ok (codes "v1.2.3")
unfolding verify_release_tag fullmatch codes get_or list_beq
accepts = refl

main_iff_example :
    ((main files (codes "v1.2.3" ∷ []) ≡ 0)
      ↔ ((tag : Str) × (codes "v1.2.3" ∷ [] ≡ tag ∷ []) × IsRelease files tag))
    × ((main files (codes "v1.2.3" ∷ []) ≡ 2) ↔ (length (codes "v1.2.3" ∷ []) ≢ 1))
main_iff_example = main_iff files (codes "v1.2.3" ∷ [])
