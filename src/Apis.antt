-- ===== src/Apis.antt =====
-- The custom resources of apis/ and integrations/*/apis: their specs, defaults and validation.
pub mod Meta
pub mod Registries
pub mod Components
pub mod Containers
pub mod Services
mod Examples
