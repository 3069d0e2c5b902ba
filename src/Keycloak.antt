-- ===== src/Keycloak.antt =====
-- src/keycloak_api_key_bridge/lib/keycloak.py: the client that asks Keycloak for entitlements.
pub mod Exec
pub mod Requests
pub mod Entitlements
