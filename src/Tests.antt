-- ===== src/Tests.antt =====
-- Runs of the modelled code on concrete inputs, and the theorems applied to them.
pub mod Text
pub mod Store
pub mod Cache
pub mod Device
pub mod Clients
pub mod Commands
pub mod Get
mod Dialog
