-- ===== src/Simhash.antt =====
-- simhash.c: shingleprints of files.
pub mod Heap
pub mod Table
pub mod Crc
pub mod Global
pub mod Score
pub mod Storage
mod Tests
