-- ===== src/Layout/ExFat/UpCase/Tests.antt =====
-- The recommended table of crates/burnout-layout/src/exfat/upcase.rs has the checksum of the specification.
use burnout.Prelude.{ℕ, zero, suc, ◌+◌, ◌<◌, ◌≡◌, refl, some, List, [], ◌∷◌, ◌++◌, length, arith}
use burnout.Layout.ExFat.Sums.{table_checksum, unit_bytes, sum_from, add_byte}
use burnout.Layout.ExFat.UpCase.{
  recommended_bytes, recommended_checksum, units, own, ascii_upper, from_table, unit,
}
use burnout.Layout.ExFat.UpCase.Expanded.{AreUnits, from_table-IsMap}
use burnout.Layout.ExFat.UpCase.Table.{recommended_table}

table_sum : table_checksum recommended_bytes ≡ recommended_checksum
unfolding table_checksum sum_from add_byte recommended_bytes recommended_table unit_bytes
table_sum = refl

-- The first `n` units from `at` on, in upper case.
uppers : ℕ → ℕ → List ℕ
unfolding ascii_upper
uppers zero at = []
uppers (suc n) at = ascii_upper at ∷ uppers n (at + 1)

abbrev ascii_table : List ℕ
ascii_table = uppers 128 0

abbrev ascii_map : List ℕ
ascii_map = uppers 128 0 ++ own 128 65408

ascii_units : AreUnits ascii_table
unfolding uppers
ascii_units = omega arith

ascii_taken : from_table ascii_table ≡ some ascii_map
unfolding from_table uppers
ascii_taken = refl

from_table-IsMap_example :
    (length ascii_map ≡ units)
    × AreUnits ascii_map
    × ((u : ℕ) → u < 128 → unit ascii_map u ≡ ascii_upper u)
from_table-IsMap_example = from_table-IsMap ascii_table ascii_map ascii_units ascii_taken
