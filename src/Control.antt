-- ===== src/Control.antt =====
-- `src/control/`: the control plane. `ControlEntry` is one slot's record, `Shard` the open-addressed
-- table of slots, and `Cachelito` the sharded plane with its operations.
pub mod ControlEntry
pub mod Handlers
pub mod Shard
pub mod Cachelito
pub mod Maintenance
pub mod History
pub mod TwoPhase
pub mod Claims
pub mod Eviction
