-- ===== src/Counter.antt =====
-- Session and total counters with atomic persistence: src/baler-core/src/counter.rs.
pub mod Files
pub mod Format
pub mod Store
pub mod Durability
pub mod Changes
pub mod Shadow
pub mod PowerCycles
