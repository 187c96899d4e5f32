-- ===== src/Layout/ExFat/Reader/Checked.antt =====
-- The boot region of crates/burnout-layout/src/exfat/boot.rs passes the check of
-- crates/burnout-layout/src/exfat/read.rs, and its fields read back.
use burnout.Prelude.{
  ℕ, ◌-◌, ◌*◌, ◌/◌, ◌%◌, ◌^◌, ◌≤◌, ◌<◌, ◌≡◌, refl, ap, ◌∙◌, sym, true, ◌&&◌, List, [], ◌∷◌, ◌++◌,
  length, replicate, take, slice, arith, le_bytes, le_value, le_value-le_bytes, same_list,
  length-append, length-replicate, length-le_bytes, take_all, take-append_whole, drop-append_whole,
  append_assoc,
}
use burnout.Core.Error.{ok}
use burnout.Layout.ExFat.Boot.{
  BootFields, boot_fields, extended_sector, repeat, summed_part, boot_region,
}
use burnout.Layout.ExFat.Geometry.{Geometry}
use burnout.Layout.ExFat.Reader.Region.{exfat_start, all_zero, all_signed, check_region}
use burnout.Layout.ExFat.Sums.{boot_checksum}
use burnout.Layout.ExFat.Sums.Skips.{checksums_fit}
use burnout.Layout.ExFat.Reader.Signed.{
  all_signed-repeat, length-repeat, all_record-repeat, length-extended,
}

module _ (g : Geometry) (f : BootFields) (le : 512 ≤ g.sector_bytes)
    (quarter : g.sector_bytes % 4 ≡ 0) where
  abbrev s : ℕ
  s = g.sector_bytes

  abbrev sum : ℕ
  sum = boot_checksum (summed_part g f)

  abbrev sector_pad : List ℕ
  sector_pad = replicate (s - 512) 0

  abbrev signed_part : List ℕ
  signed_part = repeat 8 (extended_sector s)

  abbrev record_sector : List ℕ
  record_sector = repeat (s / 4) (le_bytes 4 sum)

  length-boot_fields : length (boot_fields g f) ≡ 512
  unfolding boot_fields
  length-boot_fields = refl

  parts_eq :
      summed_part g f ≡ boot_fields g f ++ (sector_pad ++ (signed_part ++ replicate (2 * s) 0))
  unfolding summed_part
  parts_eq = refl

  length-boot : length (boot_fields g f ++ sector_pad) ≡ s
  length-boot = omega (
    arith,
    length-append (boot_fields g f) sector_pad,
    length-boot_fields,
    length-replicate {A = ℕ} (s - 512) 0,
  )

  length-signed : length (signed_part ++ replicate {A = ℕ} (2 * s) 0) ≡ 10 * s
  length-signed = omega (
    arith,
    length-append signed_part (replicate (2 * s) 0),
    length-repeat 8 (extended_sector s) s (length-extended s le),
    length-replicate {A = ℕ} (2 * s) 0,
  )

  length-summed : length (summed_part g f) ≡ 11 * s
  length-summed =
      ap length (
        parts_eq
        ∙ sym (append_assoc (boot_fields g f) sector_pad (signed_part ++ replicate (2 * s) 0)))
      ∙ omega (
        arith,
        length-append (boot_fields g f ++ sector_pad) (signed_part ++ replicate (2 * s) 0),
        length-boot,
        length-signed,
      )

  length-record : length record_sector ≡ s
  length-record =
      omega (arith, length-repeat (s / 4) (le_bytes 4 sum) 4 (length-le_bytes 4 sum), quarter)

  region_eq : boot_region g f ≡ summed_part g f ++ record_sector
  unfolding boot_region
  region_eq = refl

  pub length-region : length (boot_region g f) ≡ 12 * s
  length-region =
      ap length region_eq
      ∙ length-append (summed_part g f) record_sector
      ∙ omega (arith, length-summed, length-record)

  -- The boot sector, and what follows it.
  region_boot :
      boot_region g f
      ≡ (boot_fields g f ++ sector_pad) ++ (signed_part ++ (replicate (2 * s) 0 ++ record_sector))
  region_boot =
      region_eq
      ∙ ap (λ xs. xs ++ record_sector)
          (parts_eq
            ∙ sym (append_assoc (boot_fields g f) sector_pad (signed_part ++ replicate (2 * s) 0)))
      ∙ append_assoc (boot_fields g f ++ sector_pad) (signed_part ++ replicate (2 * s) 0)
          record_sector
      ∙ ap (λ xs. (boot_fields g f ++ sector_pad) ++ xs)
          (append_assoc signed_part (replicate (2 * s) 0) record_sector)

  boot_part : take s (boot_region g f) ≡ boot_fields g f ++ sector_pad
  boot_part =
      ap (take s) region_boot
      ∙ take-append_whole s (boot_fields g f ++ sector_pad)
          (signed_part ++ (replicate (2 * s) 0 ++ record_sector)) length-boot

  head_ok :
      (same_list (take 11 (boot_fields g f ++ sector_pad)) exfat_start
        && same_list (slice 510 2 (boot_fields g f ++ sector_pad)) (0x55 ∷ 0xAA ∷ []))
      ≡ true
  unfolding boot_fields same_list
  head_ok = refl

  zeros_ok : all_zero (slice 11 53 (boot_fields g f ++ sector_pad)) ≡ true
  unfolding boot_fields all_zero
  zeros_ok = refl

  signed_ok : all_signed 8 1 s (boot_region g f) ≡ true
  signed_ok =
      all_signed-repeat 8 1 s (boot_fields g f ++ sector_pad) (replicate (2 * s) 0 ++ record_sector)
        (boot_region g f) le (omega (arith, length-boot)) region_boot

  summed_ok : take (11 * s) (boot_region g f) ≡ summed_part g f
  summed_ok =
      ap (take (11 * s)) region_eq
      ∙ take-append_whole (11 * s) (summed_part g f) record_sector length-summed

  record_ok : slice (11 * s) s (boot_region g f) ≡ record_sector
  record_ok =
      ap (slice (11 * s) s) region_eq
      ∙ ap (take s) (drop-append_whole (11 * s) (summed_part g f) record_sector length-summed)
      ∙ take_all s record_sector (omega (arith, length-record))

  region_checked : check_region (boot_region g f) s ≡ ok tt
  unfolding check_region
  region_checked = rw boot_part (
      rw summed_ok (
        rw record_ok (
          rw head_ok (
            rw zeros_ok (
              rw signed_ok
                (rw (all_record-repeat (s / 4) sum (checksums_fit (summed_part g f)).0) refl))))))

  -- The number of `n` bytes at byte `at` of the region.
  abbrev pub field : ℕ → ℕ → ℕ
  field at n = le_value (slice at n (boot_region g f))

  region_fields :
      f.partition_offset < 256 ^ 8
      → g.volume_sectors < 256 ^ 8
      → g.fat_offset < 256 ^ 4
      → g.fat_length < 256 ^ 4
      → g.heap_offset < 256 ^ 4
      → g.cluster_count < 256 ^ 4
      → f.root_cluster < 256 ^ 4
      → f.serial < 256 ^ 4
      → (field 64 8 ≡ f.partition_offset)
        × (field 72 8 ≡ g.volume_sectors)
        × (field 80 4 ≡ g.fat_offset)
        × (field 84 4 ≡ g.fat_length)
        × (field 88 4 ≡ g.heap_offset)
        × (field 92 4 ≡ g.cluster_count)
        × (field 96 4 ≡ f.root_cluster)
        × (field 100 4 ≡ f.serial)
  unfolding boot_fields
  region_fields h0 h1 h2 h3 h4 h5 h6 h7 = (
    ap (λ xs. le_value (slice 64 8 xs)) region_boot ∙ le_value-le_bytes 8 f.partition_offset h0,
    ap (λ xs. le_value (slice 72 8 xs)) region_boot ∙ le_value-le_bytes 8 g.volume_sectors h1,
    ap (λ xs. le_value (slice 80 4 xs)) region_boot ∙ le_value-le_bytes 4 g.fat_offset h2,
    ap (λ xs. le_value (slice 84 4 xs)) region_boot ∙ le_value-le_bytes 4 g.fat_length h3,
    ap (λ xs. le_value (slice 88 4 xs)) region_boot ∙ le_value-le_bytes 4 g.heap_offset h4,
    ap (λ xs. le_value (slice 92 4 xs)) region_boot ∙ le_value-le_bytes 4 g.cluster_count h5,
    ap (λ xs. le_value (slice 96 4 xs)) region_boot ∙ le_value-le_bytes 4 f.root_cluster h6,
    ap (λ xs. le_value (slice 100 4 xs)) region_boot ∙ le_value-le_bytes 4 f.serial h7,
  )

-- The reader takes the boot region that the writer makes of sectors of whole words and 512 bytes at least, and
-- finds in it the places, the lengths and the numbers that the writer was given, where they fit their fields.
pub boot_region-checked :
    (g : Geometry) (f : BootFields)
    → 512 ≤ g.sector_bytes
    → g.sector_bytes % 4 ≡ 0
    → f.partition_offset < 256 ^ 8
    → g.volume_sectors < 256 ^ 8
    → g.fat_offset < 256 ^ 4
    → g.fat_length < 256 ^ 4
    → g.heap_offset < 256 ^ 4
    → g.cluster_count < 256 ^ 4
    → f.root_cluster < 256 ^ 4
    → f.serial < 256 ^ 4
    → (check_region (boot_region g f) g.sector_bytes ≡ ok tt)
      × (le_value (slice 64 8 (boot_region g f)) ≡ f.partition_offset)
      × (le_value (slice 72 8 (boot_region g f)) ≡ g.volume_sectors)
      × (le_value (slice 80 4 (boot_region g f)) ≡ g.fat_offset)
      × (le_value (slice 84 4 (boot_region g f)) ≡ g.fat_length)
      × (le_value (slice 88 4 (boot_region g f)) ≡ g.heap_offset)
      × (le_value (slice 92 4 (boot_region g f)) ≡ g.cluster_count)
      × (le_value (slice 96 4 (boot_region g f)) ≡ f.root_cluster)
      × (le_value (slice 100 4 (boot_region g f)) ≡ f.serial)
boot_region-checked g f le quarter h0 h1 h2 h3 h4 h5 h6 h7 =
    let r = region_fields g f le quarter h0 h1 h2 h3 h4 h5 h6 h7 in
    (region_checked g f le quarter, r.0, r.1, r.2, r.3, r.4, r.5, r.6, r.7)
