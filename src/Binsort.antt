-- ===== src/Binsort.antt =====
-- binsort.c: the directory, its hashes and distances, and the order of the files.
pub mod Order
pub mod Random
pub mod Scan
pub mod Workers
pub mod Serve
pub mod Args
pub mod Ranges
pub mod Distances
pub mod Hashing
pub mod Optimise
pub mod Genhashes
pub mod Gendistances
pub mod Genorder
pub mod Run
mod Tests
