-- ===== src/Layout/Mbr/Tests.antt =====
-- Runs of the partition table.
use burnout.Prelude.{◌*◌, ◌≤◌, ◌<◌, ◌≡◌, inl, refl, arith, [], ◌∷◌, slice}
use burnout.Layout.Plan.{Layout, align}
use burnout.Layout.Plan.Bounds.{IsSound}
use burnout.Layout.Mbr.{chs, mbr_bytes}
use burnout.Layout.Mbr.Chs.{chs_sector, chs_lem}
use burnout.Layout.Mbr.Table.{Names, mbr_bytes-Names}

abbrev two_parts : Layout
two_parts = record {
  sector_size = 512;
  drive_bytes = 8389120;
  boot = record { start = align; length = align };
  install = record { start = 2 * align; length = 6 * align };
  beyond_table = 0;
}

two_parts-IsSound : IsSound 8389120 100 two_parts
two_parts-IsSound = record {
  sector = inl refl;
  drive = refl;
  boot_start = refl;
  boot_whole = refl;
  install_whole = refl;
  boot_holds = omega arith;
  boot_tight = omega arith;
  follows = refl;
  install_room = omega arith;
  on_drive = omega arith;
  in_table = omega arith;
  takes_rest = omega arith;
  beyond = refl;
}

first_mebibyte : chs 2048 ≡ 32 ∷ 33 ∷ 0 ∷ []
unfolding chs
first_mebibyte = refl

boot_entry_bytes :
    slice 446 16 (mbr_bytes two_parts 7)
    ≡ 0x80 ∷ 32 ∷ 33 ∷ 0 ∷ 0x0C ∷ 65 ∷ 1 ∷ 0 ∷ 0 ∷ 8 ∷ 0 ∷ 0 ∷ 0 ∷ 8 ∷ 0 ∷ 0 ∷ []
unfolding mbr_bytes chs
boot_entry_bytes = refl

chs_lem_example :
    (2048 < 1024 * 255 * 63 → chs_sector (chs 2048) ≡ 2048)
    × (1024 * 255 * 63 ≤ 2048 → chs 2048 ≡ 0xFE ∷ 0xFF ∷ 0xFF ∷ [])
chs_lem_example = chs_lem 2048

mbr_bytes-Names_example : Names two_parts 7 (mbr_bytes two_parts 7)
mbr_bytes-Names_example = mbr_bytes-Names 8389120 100 two_parts 7 two_parts-IsSound (omega arith)
