-- ===== src/Psb/Numbers.antt =====
-- The numbers of the format, in writer.rs and reader.rs.
pub mod Reads
pub mod Unsigned
pub mod Signed
pub mod Checksum
