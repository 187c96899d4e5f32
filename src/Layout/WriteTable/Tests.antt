-- ===== src/Layout/WriteTable/Tests.antt =====
-- The table of a drive in memory of 8 MiB and a sector.
use burnout.Prelude.{ℕ, ◌*◌, inl, refl, arith, replicate, length-replicate}
use burnout.Core.MemoryTarget.{MemoryTarget, memory_target}
use burnout.Core.MemoryTarget.Device.{IsImage, memory-IsDevice, byte, at}
use burnout.Layout.Plan.{Layout, align}
use burnout.Layout.Plan.Bounds.{IsSound}
use burnout.Layout.WriteTable.{write_table}
use burnout.Layout.WriteTable.Erased.{Fresh, write_table-Fresh}

abbrev parts : Layout
parts = record {
  sector_size = 512;
  drive_bytes = 8389120;
  boot = record { start = align; length = align };
  install = record { start = 2 * align; length = 6 * align };
  beyond_table = 0;
}

parts-IsSound : IsSound 8389120 100 parts
parts-IsSound = record {
  sector = inl refl;
  drive = refl;
  boot_start = refl;
  boot_whole = refl;
  install_whole = refl;
  boot_holds = omega arith;
  boot_tight = omega arith;
  follows = refl;
  install_room = omega arith;
  on_drive = omega arith;
  in_table = omega arith;
  takes_rest = omega arith;
  beyond = refl;
}

-- Its bytes are any that fill the drive.
abbrev drive : (n : ℕ) → MemoryTarget
drive n = record {
  bytes = replicate n 7;
  position = 0;
  sector_size = 512;
  size = n;
  sync_count = 0;
  written = 0;
  bytes_at_last_sync = 0;
}

drive-IsImage : IsImage (drive 8389120)
drive-IsImage = record {
  bytes = length-replicate {A = ℕ} 8389120 7;
  sector_pos = omega arith;
  size_whole = refl;
}

write_table-Fresh_example :
    Fresh memory_target IsImage byte at memory-IsDevice parts 7
      (drive 8389120)
      (write_table memory_target parts 7 (drive 8389120))
write_table-Fresh_example =
    write_table-Fresh memory_target IsImage byte at memory-IsDevice 8389120 100 parts 7
      (drive 8389120) parts-IsSound drive-IsImage (omega arith) refl refl
