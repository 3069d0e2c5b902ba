-- ===== src/Api.antt =====
-- src/keycloak_api_key_bridge/controllers: the HTTP handlers.
pub mod Http
pub mod Returns
pub mod Sound
pub mod Credentials
pub mod Tokens
pub mod Validation
pub mod Management
pub mod Usage
pub mod Discovery
pub mod Routes
