-- ===== src/Recovery.antt =====
-- recovery/crates/pce-recovery: the recovery of a console.
pub mod Partitions
pub mod Image
mod Runs
