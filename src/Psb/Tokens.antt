-- ===== src/Psb/Tokens.antt =====
-- The token tree: `write_token` of writer.rs and `read_token` of reader.rs.
pub mod Layout
pub mod Leaves
pub mod Sorting
pub mod Branches
pub mod Backs
pub mod RoundTrip
pub mod Total
pub mod Forward
pub mod Fuel
