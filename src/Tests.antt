-- ===== src/Tests.antt =====
-- The properties at concrete inputs.
pub mod Data
pub mod Sessions
mod Front
mod Parts
mod Batches
mod Peers
pub mod Rings
mod Desks
mod Lines
mod Benches
mod Accepts
mod Serves
