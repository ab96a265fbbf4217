-- ===== src/Shred.antt =====
-- src/shred/: parsing of data shreds, reassembly of FEC sets, and the vault watch.
pub mod Parse
pub mod Reassembly
pub mod VaultWatch
pub mod VaultList
mod Tests
