-- ===== src/Core/Alignment/Tests.antt =====
-- The rounding of crates/burnout-core/src/alignment.rs at 1000 bytes of 512 byte sectors.
use burnout.Prelude.{◌+◌, ◌*◌, ◌%◌, ◌≤◌, ◌<◌, ◌≡◌, arith}
use burnout.Core.Alignment.{round_up, sector_count}
use burnout.Core.Alignment.Rounding.{round_up_lem}

round_up_lem_example :
    (1000 ≤ round_up 1000 512)
    × (round_up 1000 512 < 1000 + 512)
    × (round_up 1000 512 % 512 ≡ 0)
    × (sector_count 1000 512 * 512 ≡ round_up 1000 512)
round_up_lem_example = round_up_lem 1000 512 (omega arith) (omega arith)
