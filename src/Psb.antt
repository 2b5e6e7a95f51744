-- ===== src/Psb.antt =====
-- The crate m2-psb: the PSB value tree, its binary writer and its binary reader.
pub mod Value
pub mod Emit
pub mod Scan
pub mod Numbers
pub mod Reader
pub mod Parse
pub mod Writer
pub mod Trie
pub mod File
mod Runs
pub mod Canon
pub mod Tokens
pub mod Collected
pub mod Contents
pub mod Prepared
