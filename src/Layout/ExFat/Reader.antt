-- ===== src/Layout/ExFat/Reader.antt =====
-- crates/burnout-layout/src/exfat/read.rs: the reader of an exFAT volume that the check after a copy uses.
-- `Sets` is what an entry set says, `Utf16` a name as text, `ReadSet` the whole reading of a set, `Chains`
-- the chains of the FAT and the clusters that are claimed, and `Region` the check of a boot region.
-- `Taken` with `RoundTrip` and `Names`, `OneRun`, and `Checked` with `Signed` read what the writer makes;
-- `Exact` takes any set, `Ends` any FAT and `Claims` any runs.
pub mod Sets
pub mod Chains
pub mod Region
pub mod Names
pub mod RoundTrip
pub mod Taken
pub mod Exact
pub mod Claims
pub mod Utf16
pub mod ReadSet
pub mod Ends
pub mod OneRun
pub mod Signed
pub mod Checked
mod Tests
