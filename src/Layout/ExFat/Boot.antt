-- ===== src/Layout/ExFat/Boot.antt =====
-- crates/burnout-layout/src/exfat/boot.rs: the boot region of an exFAT volume.
use burnout.Prelude.{
  ℕ, zero, suc, ◌-◌, ◌*◌, ◌/◌, ◌%◌, List, [], ◌∷◌, ◌++◌, replicate, le_bytes, ◌==◌, if◌then◌else◌,
}
use burnout.Layout.ExFat.Geometry.{Geometry}
use burnout.Layout.ExFat.Sums.{boot_checksum}

abbrev pub region_sectors : ℕ
region_sectors = 12

abbrev pub summed_sectors : ℕ
summed_sectors = 11

abbrev pub jump_and_name : List ℕ
jump_and_name = 0xEB ∷ 0x76 ∷ 0x90 ∷ b'E' ∷ b'X' ∷ b'F' ∷ b'A' ∷ b'T' ∷ b' ' ∷ b' ' ∷ b' ' ∷ []

abbrev pub revision : ℕ
revision = 0x0100

abbrev pub drive_select : ℕ
drive_select = 0x80

abbrev pub halt : ℕ
halt = 0xF4

pub record BootFields : Type 0 where
  pub partition_offset : ℕ
  pub serial : ℕ
  pub root_cluster : ℕ
  pub percent_in_use : ℕ

-- `trailing_zeros` of a number above 0. The fuel is the number of the bits.
unfoldable pub trailing_zeros : ℕ → ℕ → ℕ
trailing_zeros zero n = 0
trailing_zeros (suc bits) n =
    let more = suc (trailing_zeros bits (n / 2)) in if n % 2 == 0 then more else 0

-- `Geometry::sector_shift` and `Geometry::cluster_shift`.
unfoldable pub sector_shift : Geometry → ℕ
unfolding trailing_zeros
sector_shift g = trailing_zeros 32 g.sector_bytes

unfoldable pub cluster_shift : Geometry → ℕ
unfolding trailing_zeros
cluster_shift g = trailing_zeros 32 g.cluster_sectors

-- The first 512 bytes of the boot sector.
unfoldable pub boot_fields : Geometry → BootFields → List ℕ
unfolding sector_shift cluster_shift
boot_fields g f =
    jump_and_name
    ++ (replicate 53 0
        ++ (le_bytes 8 f.partition_offset
            ++ (le_bytes 8 g.volume_sectors
                ++ (le_bytes 4 g.fat_offset
                    ++ (le_bytes 4 g.fat_length
                        ++ (le_bytes 4 g.heap_offset
                            ++ (le_bytes 4 g.cluster_count
                                ++ (le_bytes 4 f.root_cluster
                                    ++ (le_bytes 4 f.serial
                                        ++ (le_bytes 2 revision
                                            ++ (0
                                                ∷ 0
                                                ∷ sector_shift g
                                                ∷ cluster_shift g
                                                ∷ 1
                                                ∷ drive_select
                                                ∷ f.percent_in_use
                                                ∷ (replicate 7 0
                                                    ++ (replicate 390 halt
                                                        ++ 0x55 ∷ 0xAA ∷ [])))))))))))))

-- An extended boot sector, zero but for its signature at the end.
unfoldable pub extended_sector : ℕ → List ℕ
extended_sector sector = replicate (sector - 4) 0 ++ 0x00 ∷ 0x00 ∷ 0x55 ∷ 0xAA ∷ []

unfoldable pub repeat : ℕ → List ℕ → List ℕ
repeat zero part = []
repeat (suc n) part = part ++ repeat n part

-- The eleven sectors that the checksum covers.
unfoldable pub summed_part : Geometry → BootFields → List ℕ
unfolding boot_fields extended_sector repeat
summed_part g f =
    boot_fields g f
    ++ (replicate (g.sector_bytes - 512) 0
        ++ (repeat 8 (extended_sector g.sector_bytes) ++ replicate (2 * g.sector_bytes) 0))

unfoldable pub boot_region : Geometry → BootFields → List ℕ
unfolding summed_part repeat
boot_region g f =
    summed_part g f ++ repeat (g.sector_bytes / 4) (le_bytes 4 (boot_checksum (summed_part g f)))
