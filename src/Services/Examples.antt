-- ===== src/Services/Examples.antt =====
-- Concrete bindings, clients, instances and credentials, and the theorems at them.
mod Bindings
mod Clients
mod Instances
mod Lifecycles
mod Secrets
mod Ducks
mod Histories
