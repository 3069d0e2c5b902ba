-- ===== src/Permissions/Tests.antt =====
-- Permission strings that the program accepts and rejects.
use k8s_stack_keycloak_api_k.Base.{codes, ◌≡◌, refl, true, false, ◌↔◌}
use k8s_stack_keycloak_api_k.Regex.{fullmatch}
use k8s_stack_keycloak_api_k.Permissions.{is_valid_permission}
use k8s_stack_keycloak_api_k.Permissions.Grammar.{IsPermission, is_valid_permission_iff}

accepted :
    (is_valid_permission (codes "llm:invoke") ≡ true)
    × (is_valid_permission (codes "model:openai/gpt-4.1:invoke") ≡ true)
    × (is_valid_permission (codes "provider:openai:global-use") ≡ true)
unfolding is_valid_permission fullmatch codes
accepted = (refl, refl, refl)

rejected :
    (is_valid_permission (codes "model::invoke") ≡ false)
    × (is_valid_permission (codes "model:-x:invoke") ≡ false)
    × (is_valid_permission (codes "llm:invoke\n") ≡ false)
    × (is_valid_permission (codes "provider:openai:invoke") ≡ false)
unfolding is_valid_permission fullmatch codes
rejected = (refl, refl, refl, refl)

is_valid_permission_iff_example :
    (is_valid_permission (codes "mcp:files:invoke") ≡ true)
    ↔ IsPermission (codes "mcp:files:invoke")
is_valid_permission_iff_example = is_valid_permission_iff (codes "mcp:files:invoke")
