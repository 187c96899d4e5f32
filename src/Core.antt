-- ===== src/Core.antt =====
-- crates/burnout-core: what writes a drive and reads it back.
pub mod Error
pub mod Alignment
pub mod Target
pub mod Drive
pub mod Safety
pub mod SectorIo
pub mod MemoryTarget
pub mod StrictTarget
pub mod Window
pub mod Write
pub mod Verify
pub mod Sha256
pub mod Tree
