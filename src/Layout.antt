-- ===== src/Layout.antt =====
-- crates/burnout-layout: the layout that Windows mode writes.
pub mod Plan
pub mod Mbr
pub mod WriteTable
pub mod Stream
pub mod ExFat
