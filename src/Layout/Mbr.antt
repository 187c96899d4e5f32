-- ===== src/Layout/Mbr.antt =====
-- crates/burnout-layout/src/mbr.rs: the partition table.
pub mod Chs
pub mod Table
mod Tests
use Prim.Native.Nat.{bit_and, bit_or}
use burnout.Prelude.{
  ℕ, ◌+◌, ◌-◌, ◌*◌, ◌/◌, ◌%◌, ◌^◌, Bool, true, false, List, [], ◌∷◌, ltb, if◌then◌else◌, set,
  replicate, copy_at, le_bytes, u8, u32,
}
use burnout.Layout.Plan.{Extent, Layout, first_sector, sectors}

-- `TYPE_FAT32`, `TYPE_EXFAT` and `ACTIVE`.
abbrev pub type_fat32 : ℕ
type_fat32 = 0x0C

abbrev pub type_exfat : ℕ
type_exfat = 0x07

abbrev pub active : ℕ
active = 0x80

-- The address of a sector of a drive of 255 heads and 63 sectors per track.
unfoldable pub chs : ℕ → List ℕ
chs lba =
    let cylinder = lba / (255 * 63) in
    let head = (lba / 63) % 255 in
    let sector = lba % 63 + 1 in
    if ltb 1023 cylinder
    then 0xFE ∷ 0xFF ∷ 0xFF ∷ []
    else u8 head
      ∷ bit_or (u8 sector) (u8 (bit_and (cylinder / 2 ^ 2) 0xC0))
      ∷ u8 (bit_and cylinder 0xFF)
      ∷ []

-- One entry of the table. A partition has a sector, so `first + count - 1` does not go below `first`.
unfoldable pub entry : Layout → Extent → ℕ → Bool → List ℕ
unfolding first_sector sectors
entry layout extent kind is_active =
    let first = first_sector layout extent in
    let count = sectors layout extent in
    let e0 = set (replicate 16 0) 0 (if is_active then active else 0) in
    let e1 = copy_at 1 (chs first) e0 in
    let e2 = set e1 4 kind in
    let e3 = copy_at 5 (chs (first + count - 1)) e2 in
    let e4 = copy_at 8 (le_bytes 4 (u32 first)) e3 in copy_at 12 (le_bytes 4 (u32 count)) e4

-- The 512 bytes of an MBR.
unfoldable pub mbr_bytes : Layout → ℕ → List ℕ
unfolding entry
mbr_bytes layout disk_signature =
    let m0 = replicate 512 0 in
    let m1 = copy_at 440 (le_bytes 4 disk_signature) m0 in
    let m2 = copy_at 446 (entry layout layout.boot type_fat32 true) m1 in
    let m3 = copy_at 462 (entry layout layout.install type_exfat false) m2 in
    let m4 = set m3 510 0x55 in set m4 511 0xAA
