-- ===== src/Tests.antt =====
-- Concrete inputs for the theorems.
mod World
mod Broker
mod Output
mod Texts
mod Finish
mod Profile
mod Audit
mod Vault
mod Store
