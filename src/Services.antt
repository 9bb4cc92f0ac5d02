-- ===== src/Services.antt =====
-- integrations/services: the controllers of service instances, bindings and clients, and the server
-- of their credentials.
pub mod Binding
pub mod Client
pub mod Instance
pub mod Lifecycle
pub mod Definition
pub mod Ducks
pub mod Credentials
mod Examples
