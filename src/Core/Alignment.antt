-- ===== src/Core/Alignment.antt =====
-- crates/burnout-core/src/alignment.rs: sector arithmetic. A length is a `u64`, a sector size a `u32`.
pub mod Rounding
mod Tests
use burnout.Prelude.{
  ℕ, ◌+◌, ◌*◌, ◌%◌, ◌/◌, Bool, not, ◌&&◌, ◌||◌, ◌==◌, if◌then◌else◌, u64, div_ceil,
}
use burnout.Core.Error.{Result, ok, err, sector_size, unaligned}

-- `SECTOR_SIZES.contains(&sector_size)`.
abbrev pub supported : ℕ → Bool
supported s = s == 512 || s == 4096

unfoldable pub check_sector_size : ℕ → Result ℕ
check_sector_size s = if supported s then ok s else err (sector_size s)

unfoldable pub is_aligned : ℕ → ℕ → Bool
is_aligned length s = not (s == 0) && (length % s == 0)

unfoldable pub check_aligned : ℕ → ℕ → Result (Unit {0})
unfolding is_aligned
check_aligned length s = if is_aligned length s then ok tt else err (unaligned length s)

-- The product wraps around, as in a release build.
unfoldable pub round_up : ℕ → ℕ → ℕ
round_up length s = if s == 0 then length else u64 (div_ceil length s * s)

unfoldable pub sector_count : ℕ → ℕ → ℕ
sector_count length s = if s == 0 then 0 else div_ceil length s
