-- ===== src/Threshold.antt =====
-- plugins/pkg/plugin/threshold: the coordinator of a distributed key generation, and what the
-- plugin accepts as a request for one.
pub mod Request
pub mod Session
pub mod Coordinate
mod Tests
