-- ===== src/Managed.antt =====
-- src/keycloak_api_key_bridge/lib/managed_api_keys.py: the grant and verifier files of managed keys.
pub mod Grant
pub mod Slots
