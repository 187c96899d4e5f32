-- ===== src/Layout/ExFat/Write.antt =====
-- The FAT and the allocation bitmap that crates/burnout-layout/src/exfat/write.rs puts on a volume.
pub mod Fat
pub mod Bitmap
mod Tests
use burnout.Prelude.{
  ℕ, zero, suc, ◌+◌, ◌-◌, ◌*◌, ◌/◌, ◌%◌, ◌^◌, Bool, List, [], ◌∷◌, ◌++◌, length, replicate, set,
  le_bytes, ltb, ◌==◌, if◌then◌else◌, div_ceil,
}
use burnout.Layout.ExFat.Geometry.{bitmap_bytes}
use burnout.Layout.ExFat.Place.{Run, run_end, Placement, used_clusters}

abbrev pub media : ℕ
media = 0xFFFFFFF8

abbrev pub end_of_chain : ℕ
end_of_chain = 0xFFFFFFFF

-- The chain of one run: `n` clusters from `cluster` on.
unfoldable pub link_run : ℕ → ℕ → List ℕ → List ℕ
link_run zero cluster entries = entries
link_run (suc n) cluster entries =
    link_run n (cluster + 1) (set entries cluster (if n == 0 then end_of_chain else cluster + 1))

-- The entries of the FAT up to the end of the root directory.
unfoldable pub fat_entries : Placement → List ℕ
unfolding link_run run_end
fat_entries p =
    let blank = replicate (run_end p.root) 0 in
    let heads = set (set blank 0 media) 1 end_of_chain in
    link_run p.root.clusters p.root.first
      (link_run p.upcase.clusters p.upcase.first (link_run p.bitmap.clusters p.bitmap.first heads))

unfoldable pub fat_bytes : List ℕ → List ℕ
fat_bytes [] = []
fat_bytes (e ∷ es) = le_bytes 4 e ++ fat_bytes es

-- Whole sectors of the FAT, zeros behind the entries.
unfoldable pub fat_head : ℕ → Placement → List ℕ
unfolding fat_entries fat_bytes
fat_head sector p =
    let bytes = fat_bytes (fat_entries p) in
    bytes ++ replicate (div_ceil (length bytes) sector * sector - length bytes) 0

-- Every cluster up to the last in use is marked.
unfoldable pub bitmap : Placement → List ℕ
unfolding used_clusters
bitmap p =
    let used = used_clusters p in
    let size = bitmap_bytes p.geometry in
    let bits = replicate (used / 8) 0xFF ++ replicate (size - used / 8) 0 in
    if used % 8 == 0 then bits else set bits (used / 8) (2 ^ (used % 8) - 1)
