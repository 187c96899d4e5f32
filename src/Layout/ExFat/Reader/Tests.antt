-- ===== src/Layout/ExFat/Reader/Tests.antt =====
-- A boot region, a chain that never ends and a file that is read back, for crates/burnout-layout/src/exfat/read.rs.
use burnout.Prelude.{
  ℕ, ◌≡◌, refl, none, List, [], ◌∷◌, ◌++◌, replicate, inl, inr, slice, le_value, arith, false,
}
use burnout.Core.Error.{ok}
use burnout.Layout.ExFat.Boot.{BootFields, boot_region}
use burnout.Layout.ExFat.Place.Tests.{heap}
use burnout.Layout.ExFat.Reader.Chains.{ClusterRun, VolumeShape, claim_run}
use burnout.Layout.ExFat.Reader.Region.{check_region}
use burnout.Core.MemoryTarget.{MemoryTarget, memory_target}
use burnout.Core.Tree.{new_path}
use burnout.Layout.ExFat.Sums.{name_hash}
use burnout.Layout.ExFat.UpCase.{upcase_name}
use burnout.Layout.ExFat.Entries.{file_set, file_kind}
use burnout.Layout.ExFat.Reader.ReadSet.{Node, Reading, read_set, holds_name, claim}
use burnout.Layout.ExFat.Reader.Claims.{Claimed, claim-Claimed}
use burnout.Layout.ExFat.Reader.Exact.{Checked}
use burnout.Layout.ExFat.Reader.Taken.{written_data, file_set-read}
use burnout.Layout.ExFat.Reader.Checked.{boot_region-checked}

abbrev fields : BootFields
fields = record { partition_offset = 2048; serial = 99; root_cluster = 5; percent_in_use = 7 }

boot_region-checked_example :
    (check_region (boot_region heap fields) 512 ≡ ok tt)
    × (le_value (slice 64 8 (boot_region heap fields)) ≡ 2048)
    × (le_value (slice 72 8 (boot_region heap fields)) ≡ 8192)
    × (le_value (slice 80 4 (boot_region heap fields)) ≡ 2048)
    × (le_value (slice 84 4 (boot_region heap fields)) ≡ 8)
    × (le_value (slice 88 4 (boot_region heap fields)) ≡ 4096)
    × (le_value (slice 92 4 (boot_region heap fields)) ≡ 100)
    × (le_value (slice 96 4 (boot_region heap fields)) ≡ 5)
    × (le_value (slice 100 4 (boot_region heap fields)) ≡ 99)
boot_region-checked_example =
    boot_region-checked heap fields (omega arith) refl (omega arith) (omega arith) (omega arith)
      (omega arith) (omega arith) (omega arith) (omega arith) (omega arith)

-- A cluster that names itself.
abbrev in_a_circle : ℕ → ℕ
in_a_circle c = c

-- An up-case table of the small letters alone, which is as long as the name needs.
abbrev letters : List ℕ
letters =
    b'A' ∷ b'B' ∷ b'C' ∷ b'D' ∷ b'E' ∷ b'F' ∷ b'G' ∷ b'H' ∷ b'I' ∷ b'J' ∷ b'K' ∷ b'L' ∷ b'M' ∷ b'N'
    ∷ b'O' ∷ b'P' ∷ b'Q' ∷ b'R' ∷ b'S' ∷ b'T' ∷ b'U' ∷ []

abbrev up : List ℕ
up = replicate 97 0 ++ letters

abbrev setup : List ℕ
setup = b's' ∷ b'e' ∷ b't' ∷ b'u' ∷ b'p' ∷ []

abbrev volume : VolumeShape
volume = record { sector = 512; cluster = 4096; count = 100; fat_start = 4096 }

abbrev empty_image : MemoryTarget
empty_image = record {
  bytes = [];
  position = 0;
  sector_size = 512;
  size = 0;
  sync_count = 0;
  written = 0;
  bytes_at_last_sync = 0;
}

-- A directory that holds one name, on a volume of which nothing is claimed.
abbrev reading : Reading MemoryTarget
reading = record { target = empty_image; claimed = replicate 13 0; names = (b'A' ∷ []) ∷ [] }

-- The bits of 18 clusters from cluster 9 on.
abbrev claimed : List ℕ
claimed = 0x80 ∷ 0xff ∷ 0xff ∷ 1 ∷ replicate 9 0

file_set-read_example :
    read_set memory_target volume up none
      (file_set setup (name_hash (upcase_name up setup)) file_kind 9 70000)
      reading
    ≡ (
      ok (record { path = setup; is_dir = false; stream = written_data 9 70000 }),
      record reading { claimed = claimed; names = upcase_name up setup ∷ reading.names },
    )
unfolding new_path holds_name claim_run upcase_name
file_set-read_example =
    file_set-read memory_target volume up none setup setup file_kind 9 70000 claimed reading
      (
        inl (omega arith),
        (inl (omega arith), (inl (omega arith), (inl (omega arith), (inl (omega arith), tt)))),
      )
      (omega arith) (omega arith) (omega arith) (omega arith) refl refl
      (inr (omega arith, omega arith, omega arith)) refl

abbrev setup_set : List ℕ
setup_set = file_set setup (name_hash (upcase_name up setup)) file_kind 9 70000

abbrev setup_node : Node
setup_node = record { path = setup; is_dir = false; stream = written_data 9 70000 }

abbrev after_setup : Reading MemoryTarget
after_setup = record reading { claimed = claimed; names = upcase_name up setup ∷ reading.names }

abbrev two_runs : List ClusterRun
two_runs = (9, 18) ∷ (40, 2) ∷ []

abbrev both_claimed : List ℕ
both_claimed = 0x80 ∷ 0xff ∷ 0xff ∷ 1 ∷ 0xC0 ∷ replicate 8 0

claim-Claimed_example : Claimed two_runs (replicate 13 0) both_claimed
unfolding claim
claim-Claimed_example =
    claim-Claimed setup two_runs (replicate 13 0) both_claimed
      (omega arith, omega arith, (omega arith, omega arith, tt)) refl
