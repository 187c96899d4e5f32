-- ===== src/Layout/Plan.antt =====
-- crates/burnout-layout/src/plan.rs: where each partition of the Windows layout starts, and how long
-- it is.
pub mod Bounds
mod Tests
use burnout.Prelude.{ℕ, ◌+◌, ◌-◌, ◌*◌, ◌/◌, ◌^◌, min, max, ltb, if◌then◌else◌, u64, div_ceil}
use burnout.Core.Error.{Result, ok, err, too_small, ◌>>=◌, ◌>>◌}
use burnout.Core.Alignment.{check_sector_size, check_aligned}

-- `ALIGN`.
abbrev pub align : ℕ
align = 1024 * 1024

-- `MBR_SECTORS`.
abbrev pub mbr_sectors : ℕ
mbr_sectors = 2 ^ 32

pub record Extent : Type 0 where
  pub start : ℕ
  pub length : ℕ

-- `Extent::end`.
unfoldable pub extent_end : Extent → ℕ
extent_end e = u64 (e.start + e.length)

pub record Layout : Type 0 where
  pub sector_size : ℕ
  pub drive_bytes : ℕ
  pub boot : Extent
  pub install : Extent
  pub beyond_table : ℕ

unfoldable pub first_sector : Layout → Extent → ℕ
first_sector l e = e.start / l.sector_size

unfoldable pub sectors : Layout → Extent → ℕ
sectors l e = e.length / l.sector_size

-- `round_up` of this file: the product wraps around, as in a release build.
unfoldable pub round_up : ℕ → ℕ → ℕ
round_up value unit = u64 (div_ceil value unit * unit)

unfoldable pub round_down : ℕ → ℕ → ℕ
round_down value unit = value / unit * unit

-- The boot partition that holds `boot_bytes`, at least one byte.
unfoldable pub boot_extent : ℕ → Extent
unfolding round_up
boot_extent boot_bytes = record { start = align; length = round_up (max boot_bytes 1) align }

-- The end of what the table can name.
unfoldable pub table_end : ℕ → ℕ
table_end sector_size = u64 (mbr_sectors * sector_size)

-- The end of the install partition.
unfoldable pub install_end : ℕ → ℕ → ℕ
unfolding round_down table_end
install_end drive_bytes sector_size = round_down (min drive_bytes (table_end sector_size)) align

-- The layout, where there is room for it.
unfoldable pub laid_out : ℕ → ℕ → Extent → Layout
unfolding extent_end install_end
laid_out drive_bytes sector_size boot = record {
  sector_size = sector_size;
  drive_bytes = drive_bytes;
  boot = boot;
  install = record {
    start = extent_end boot;
    length = install_end drive_bytes sector_size - extent_end boot;
  };
  beyond_table = drive_bytes - table_end sector_size;
}

-- What follows the two checks of `plan`, on a checked sector size.
unfoldable pub place : ℕ → ℕ → Extent → Result Layout
unfolding laid_out
place drive_bytes sector_size boot =
    let least = u64 (extent_end boot + align) in
    if ltb (install_end drive_bytes sector_size) least
    then err (too_small least drive_bytes)
    else ok (laid_out drive_bytes sector_size boot)

unfoldable pub plan : ℕ → ℕ → ℕ → Result Layout
plan drive_bytes sector_size boot_bytes = do
  sector ← check_sector_size sector_size
  check_aligned drive_bytes sector
  place drive_bytes sector (boot_extent boot_bytes)
