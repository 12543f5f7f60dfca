-- ===== src/Beacon.antt =====
-- plugins/pkg/plugin/beacon: the beacons, their registry, and the chain of blocks of each.
pub mod Types
pub mod Scheduler
pub mod Ipfs
pub mod Registry
pub mod Builder
mod Tests
