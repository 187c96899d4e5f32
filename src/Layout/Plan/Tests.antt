-- ===== src/Layout/Plan/Tests.antt =====
-- Runs of the plan.
use burnout.Prelude.{◌*◌, ◌≡◌, ◌⊎◌, inl, refl, arith, min, ◌≤◌, ◌<◌}
use burnout.Core.Error.{ok, err, too_small, unaligned, sector_size}
use burnout.Core.Alignment.{check_sector_size, check_aligned}
use burnout.Layout.Plan.{Layout, align, mbr_sectors, plan, place, boot_extent}
use burnout.Layout.Plan.Bounds.{IsSound, needed, plan-IsSound, plan_decides}

-- A drive of 8 MiB and a sector, with a boot partition for 100 bytes.
abbrev small : Layout
small = record {
  sector_size = 512;
  drive_bytes = 8389120;
  boot = record { start = align; length = align };
  install = record { start = 2 * align; length = 6 * align };
  beyond_table = 0;
}

plan-small : plan 8389120 512 100 ≡ ok small
unfolding plan place boot_extent check_sector_size check_aligned
plan-small = refl

plan_unaligned : plan 8389121 512 100 ≡ err (unaligned 8389121 512)
unfolding plan check_sector_size check_aligned
plan_unaligned = refl

plan_bad_sector : plan 8389120 520 100 ≡ err (sector_size 520)
unfolding plan check_sector_size
plan_bad_sector = refl

plan-IsSound_example : IsSound 8389120 100 small
plan-IsSound_example = plan-IsSound 8389120 512 100 (omega arith) (omega arith) plan-small

plan_decides_example :
    ((l : Layout) × (plan 2097152 512 100 ≡ ok l) × (needed 100 ≤ min 2097152 (mbr_sectors * 512)))
    ⊎ ((plan 2097152 512 100 ≡ err (too_small (needed 100) 2097152))
        × (min 2097152 (mbr_sectors * 512) < needed 100))
plan_decides_example = plan_decides 2097152 512 100 (omega arith) (omega arith) (inl refl) refl
