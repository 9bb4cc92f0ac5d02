-- ===== src/Apis/Examples.antt =====
-- Concrete resources at the admission webhooks, and the theorems at them.
mod Components
mod Services
mod Containers
