-- ===== src/Saves.antt =====
-- editor/crates/m2-publish/src/save_format.rs: native save files, and the replacement of a pair of them.
pub mod Metadata
pub mod Disk
pub mod Journal
pub mod Migration
mod Runs
