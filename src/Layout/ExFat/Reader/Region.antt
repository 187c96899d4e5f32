-- ===== src/Layout/ExFat/Reader/Region.antt =====
-- `check_region` of crates/burnout-layout/src/exfat/read.rs, and that it takes what the writer makes.
use Prim.Native.String.{String}
use burnout.Prelude.{
  ℕ, zero, suc, ◌+◌, ◌-◌, ◌*◌, ◌/◌, Bool, true, false, ◌&&◌, List, [], ◌∷◌, take, drop, slice, ◌==◌,
  le_value, same_list,
}
use burnout.Core.Error.{Result, ok, err, ◌>>◌, io, invalid_data}
use burnout.Layout.ExFat.Sums.{boot_checksum}

-- A check of the volume as a whole.
abbrev pub valid_if : Bool → String → Result (Unit {0})
valid_if true detail = ok tt
valid_if false detail = err (io (invalid_data detail))

unfoldable pub all_zero : List ℕ → Bool
all_zero [] = true
all_zero (b ∷ bs) = b == 0 && all_zero bs

-- Each extended boot sector ends in its signature, from the sector `number` on.
unfoldable pub all_signed : ℕ → ℕ → ℕ → List ℕ → Bool
unfolding same_list
all_signed zero number sector region = true
all_signed (suc n) number sector region =
    same_list (slice ((number + 1) * sector - 4) 4 region) (0x00 ∷ 0x00 ∷ 0x55 ∷ 0xAA ∷ [])
    && all_signed n (number + 1) sector region

-- `chunks_exact(4)` of the last sector, `n` of them.
unfoldable pub all_record : ℕ → ℕ → List ℕ → Bool
all_record zero sum words = true
all_record (suc n) sum words = le_value (take 4 words) == sum && all_record n sum (drop 4 words)

-- The first bytes of a boot sector of exFAT, as the reader spells them.
abbrev pub exfat_start : List ℕ
exfat_start = 0xEB ∷ 0x76 ∷ 0x90 ∷ 0x45 ∷ 0x58 ∷ 0x46 ∷ 0x41 ∷ 0x54 ∷ 0x20 ∷ 0x20 ∷ 0x20 ∷ []

unfoldable pub check_region : List ℕ → ℕ → Result (Unit {0})
unfolding same_list all_zero all_signed all_record
check_region region sector =
    let boot = take sector region in
    let sum = boot_checksum (take (11 * sector) region) in
    valid_if
      (same_list (take 11 boot) exfat_start && same_list (slice 510 2 boot) (0x55 ∷ 0xAA ∷ []))
      "it is not the boot region of exFAT"
    >> (valid_if (all_zero (slice 11 53 boot)) "it has parameters of FAT in it"
        >> (valid_if (all_signed 8 1 sector region) "an extended boot sector has no signature"
            >> valid_if (all_record (sector / 4) sum (slice (11 * sector) sector region))
                "it does not have the checksum its last sector records"))
