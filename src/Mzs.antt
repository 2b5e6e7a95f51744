-- ===== src/Mzs.antt =====
-- The crate m2-mzs: the MT19937 keystream and the MZS archive.
pub mod Twister
pub mod Archive
mod Runs
