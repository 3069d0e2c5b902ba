-- ===== src/Tests.antt =====
-- The theorems at concrete inputs, which show that their hypotheses can hold.
mod Data
mod Database
mod Managed
mod Jwks
mod Keycloak
mod Api
mod Routes
mod Health
mod Usage
mod Schema
mod Release
mod Service
mod System
