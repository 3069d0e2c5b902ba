-- ===== src/Database.antt =====
-- src/keycloak_api_key_bridge/config/database.py: the table of API keys, the session that a request
-- works through, and the class methods of `ApiKey`.
pub mod Session
pub mod Rows
pub mod Keys
pub mod Quota
pub mod Schema
