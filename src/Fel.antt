-- ===== src/Fel.antt =====
-- recovery/crates/sunxi-fel: the FEL protocol of the console's boot ROM.
pub mod Protocol
pub mod Discovery
pub mod Device
pub mod Waiting
mod Runs
