-- ===== src/Core/SectorIo.antt =====
-- crates/burnout-core/src/sector_io.rs: byte-level access over a target that takes whole sectors only.
pub mod Cache
pub mod State
pub mod Access
pub mod Lookup
pub mod View
pub mod Send
pub mod SendRun
pub mod WriteBack
pub mod Load
pub mod Read
pub mod Taken
pub mod Write
pub mod Flush
mod Tests
