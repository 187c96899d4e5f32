-- ===== src/Layout/ExFat/Sums/Tests.antt =====
-- The checksums of crates/burnout-layout/src/exfat/sums.rs over a few bytes.
use burnout.Prelude.{ℕ, ◌≡◌, refl, List, [], ◌∷◌, set}
use burnout.Layout.ExFat.Sums.{boot_checksum, set_checksum, table_checksum, sum_from, add_byte}
use burnout.Layout.ExFat.Sums.Skips.{checksums-stored}

abbrev entry_start : List ℕ
entry_start = 0x85 ∷ 2 ∷ 0x3b ∷ 0x5c ∷ 0x20 ∷ []

sum_of_two : table_checksum (1 ∷ 2 ∷ []) ≡ 0x80000002
unfolding table_checksum sum_from add_byte
sum_of_two = refl

checksums-stored_example :
    (set_checksum (set (set entry_start 2 7) 3 9) ≡ set_checksum entry_start)
    × (boot_checksum (set (set (set entry_start 106 7) 107 9) 112 1) ≡ boot_checksum entry_start)
checksums-stored_example = checksums-stored entry_start 7 9 1
