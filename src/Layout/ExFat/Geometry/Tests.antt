-- ===== src/Layout/ExFat/Geometry/Tests.antt =====
-- The geometry of a volume of 64 MiB, for crates/burnout-layout/src/exfat/geometry.rs.
use burnout.Prelude.{◌*◌, ◌≡◌, inl, refl, some}
use burnout.Layout.ExFat.Geometry.{Geometry, new, put_parts, picked_bytes, fat_sectors, heap_start}
use burnout.Layout.ExFat.Geometry.Parts.{InOrder, new-InOrder}

abbrev volume : Geometry
volume = record {
  sector_bytes = 512;
  cluster_sectors = 8;
  volume_sectors = 131072;
  fat_offset = 2048;
  fat_length = 125;
  heap_offset = 4096;
  cluster_count = 15872;
}

new-volume : new (64 * (1024 * 1024)) 512 ≡ some volume
unfolding new put_parts picked_bytes fat_sectors heap_start
new-volume = refl

new-InOrder_example : InOrder (64 * (1024 * 1024)) 512 volume
new-InOrder_example = new-InOrder (64 * (1024 * 1024)) 512 volume (inl refl) new-volume
