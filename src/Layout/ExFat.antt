-- ===== src/Layout/ExFat.antt =====
-- What decides the shape of a volume in the exFAT writer of crates/burnout-layout/src/exfat.
pub mod Geometry
pub mod Sums
pub mod UpCase
pub mod Entries
pub mod Place
pub mod Boot
pub mod Write
pub mod Reader
pub mod Writer
