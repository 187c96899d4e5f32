-- ===== src/Layout/ExFat/Geometry.antt =====
-- crates/burnout-layout/src/exfat/geometry.rs: where each part of an exFAT volume goes. On a volume of at
-- most 2 ^ 64 bytes no sum or product of this file wraps around.
pub mod Parts
mod Tests
use burnout.Prelude.{
  ℕ, ◌+◌, ◌-◌, ◌*◌, ◌/◌, ◌^◌, min, max, Bool, ◌&&◌, Option, none, some, ltb, leb, ◌==◌,
  if◌then◌else◌, div_ceil,
}
use burnout.Layout.Plan.{align}

-- `MAX_CLUSTERS` and `FIRST_CLUSTER`.
abbrev pub max_clusters : ℕ
max_clusters = 2 ^ 32 - 11

abbrev pub first_cluster : ℕ
first_cluster = 2

pub record Geometry : Type 0 where
  pub sector_bytes : ℕ
  pub cluster_sectors : ℕ
  pub volume_sectors : ℕ
  pub fat_offset : ℕ
  pub fat_length : ℕ
  pub heap_offset : ℕ
  pub cluster_count : ℕ

-- The cluster size that Windows picks, and never less than a sector: the free function `cluster_bytes`.
unfoldable pub picked_bytes : ℕ → ℕ → ℕ
picked_bytes volume_bytes sector_bytes =
    max
      (if leb volume_bytes (256 * (1024 * 1024))
        then 4 * 1024
        else if leb volume_bytes (32 * (1024 * 1024 * 1024))
        then 32 * 1024
        else 128 * 1024)
      sector_bytes

unfoldable pub fat_sectors : ℕ → ℕ → ℕ
fat_sectors clusters sector = div_ceil ((clusters + 2) * 4) sector

-- The start of the cluster heap, in sectors.
unfoldable pub heap_start : ℕ → ℕ → ℕ → ℕ
heap_start volume_sectors cluster_sectors sector =
    let unit = align / sector in
    let most = (volume_sectors - unit) / cluster_sectors in
    div_ceil (unit + fat_sectors most sector) unit * unit

abbrev pub is_u32 : ℕ → Bool
is_u32 n = ltb n (2 ^ 32)

-- The parts, once there is room for the FAT and the heap; `try_from` refuses what 32 bits do not hold.
unfoldable pub put_parts : ℕ → ℕ → ℕ → ℕ → Option Geometry
put_parts sector volume_sectors cluster_sectors heap_offset =
    let unit = align / sector in
    let cluster_count = min ((volume_sectors - heap_offset) / cluster_sectors) max_clusters in
    let fat_length = fat_sectors cluster_count sector in
    if cluster_count == 0
    then none
    else if is_u32 unit && is_u32 fat_length && is_u32 heap_offset
    then some (record {
      sector_bytes = sector;
      cluster_sectors = cluster_sectors;
      volume_sectors = volume_sectors;
      fat_offset = unit;
      fat_length = fat_length;
      heap_offset = heap_offset;
      cluster_count = cluster_count;
    })
    else none

unfoldable pub new : ℕ → ℕ → Option Geometry
new volume_bytes sector =
    let volume_sectors = volume_bytes / sector in
    let cluster_sectors = picked_bytes volume_bytes sector / sector in
    let heap_offset = heap_start volume_sectors cluster_sectors sector in
    if ltb volume_sectors (align / sector)
    then none
    else if ltb volume_sectors heap_offset
    then none
    else put_parts sector volume_sectors cluster_sectors heap_offset

unfoldable pub cluster_bytes : Geometry → ℕ
cluster_bytes g = g.cluster_sectors * g.sector_bytes

unfoldable pub clusters_for : Geometry → ℕ → ℕ
unfolding cluster_bytes
clusters_for g bytes = div_ceil bytes (cluster_bytes g)

-- A cluster is at least `first_cluster`.
unfoldable pub cluster_offset : Geometry → ℕ → ℕ
unfolding cluster_bytes
cluster_offset g cluster =
    g.heap_offset * g.sector_bytes + (cluster - first_cluster) * cluster_bytes g

unfoldable pub fat_start : Geometry → ℕ
fat_start g = g.fat_offset * g.sector_bytes

unfoldable pub bitmap_bytes : Geometry → ℕ
bitmap_bytes g = div_ceil g.cluster_count 8
