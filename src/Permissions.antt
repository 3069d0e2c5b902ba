-- ===== src/Permissions.antt =====
-- src/keycloak_api_key_bridge/lib/permissions.py: the AgentGateway permission namespace.
pub mod Grammar
mod Tests
use k8s_stack_keycloak_api_k.Base.{ℕ, Str, codes, Bool, ◌||◌, ◌==◌, nat_eq}
use k8s_stack_keycloak_api_k.Regex.{Regex, cls, lit, seq, alt, upto, fullmatch, is_alnum}

-- `[A-Za-z0-9._/-]`
abbrev pub is_resource_char : ℕ → Bool
is_resource_char c = is_alnum c || c == b'.' || c == b'_' || c == b'/' || c == b'-'

-- `_RESOURCE_ID`
pub resource_id : Regex
resource_id = seq (cls is_alnum) (upto 127 is_resource_char)

-- `(?:model|mcp|application):{_RESOURCE_ID}:invoke`
invoke_pattern : Regex
unfolding resource_id
invoke_pattern =
    seq (alt (lit (codes "model")) (alt (lit (codes "mcp")) (lit (codes "application"))))
      (seq (lit (codes ":")) (seq resource_id (lit (codes ":invoke"))))

-- `provider:{_RESOURCE_ID}:global-use`
provider_pattern : Regex
unfolding resource_id
provider_pattern = seq (lit (codes "provider:")) (seq resource_id (lit (codes ":global-use")))

-- `_PERMISSION_PATTERN`; under `fullmatch` its `^` and `$` say nothing more
permission_pattern : Regex
unfolding invoke_pattern provider_pattern
permission_pattern = alt (lit (codes "llm:invoke")) (alt invoke_pattern provider_pattern)

unfoldable pub is_valid_permission : Str → Bool
unfolding permission_pattern
is_valid_permission value = fullmatch permission_pattern value
