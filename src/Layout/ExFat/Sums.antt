-- ===== src/Layout/ExFat/Sums.antt =====
-- crates/burnout-layout/src/exfat/sums.rs: the checksums of exFAT. A sum of `w` bits is turned one bit to the
-- right, and the next byte is added.
pub mod Skips
mod Tests
use burnout.Prelude.{
  ℕ, zero, suc, ◌+◌, ◌-◌, ◌*◌, ◌/◌, ◌%◌, ◌^◌, Bool, not, ◌||◌, List, [], ◌∷◌, ◌++◌, ◌==◌,
  if◌then◌else◌, le_bytes,
}

-- `rotate_right(1)` of `w` bits.
abbrev pub rotate_right : ℕ → ℕ → ℕ
rotate_right w sum = sum / 2 + sum % 2 * 2 ^ (w - 1)

-- One step, `wrapping_add` included.
unfoldable pub add_byte : ℕ → ℕ → ℕ → ℕ
add_byte w sum byte = (rotate_right w sum + byte) % 2 ^ w

-- The fold over the bytes from place `at` on that are not skipped.
unfoldable pub sum_from : ℕ → (ℕ → Bool) → ℕ → ℕ → List ℕ → ℕ
sum_from w skipped at sum [] = sum
sum_from w skipped at sum (b ∷ bs) =
    sum_from w skipped (at + 1) (if skipped at then sum else add_byte w sum b) bs

abbrev pub in_boot : ℕ → Bool
in_boot at = at == 106 || at == 107 || at == 112

abbrev pub in_set : ℕ → Bool
in_set at = at == 2 || at == 3

unfoldable pub boot_checksum : List ℕ → ℕ
boot_checksum sectors = sum_from 32 in_boot 0 0 sectors

unfoldable pub set_checksum : List ℕ → ℕ
set_checksum entries = sum_from 16 in_set 0 0 entries

abbrev pub never : ℕ → Bool
never at = Bool.false

-- The bytes of the units, low byte first.
unfoldable pub unit_bytes : List ℕ → List ℕ
unit_bytes [] = []
unit_bytes (u ∷ us) = le_bytes 2 u ++ unit_bytes us

unfoldable pub name_hash : List ℕ → ℕ
unfolding unit_bytes
name_hash upcased = sum_from 16 never 0 0 (unit_bytes upcased)

unfoldable pub table_checksum : List ℕ → ℕ
table_checksum table = sum_from 32 never 0 0 table
