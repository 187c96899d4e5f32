-- ===== src/Layout/ExFat/Place/Tests.antt =====
-- A directory with one file in it, placed by crates/burnout-layout/src/exfat/place.rs.
use burnout.Prelude.{◌<◌, ◌≡◌, refl, none, [], ◌∷◌, arith}
use burnout.Core.Error.{ok}
use burnout.Layout.ExFat.Entries.{dir_kind, file_kind, set_entries}
use burnout.Layout.ExFat.Geometry.{Geometry, cluster_bytes, clusters_for, bitmap_bytes}
use burnout.Layout.ExFat.Place.{
  no_run, run_end, Item, Placement, allocate, kind_clusters, children_bytes, run_at,
}
use burnout.Layout.ExFat.Place.Allocated.{IsAllocated, allocate-IsAllocated, allocate-apart}
use burnout.Layout.ExFat.Place.Runs.{InRun}
use burnout.Layout.ExFat.Sums.{unit_bytes}
use burnout.Layout.ExFat.UpCase.{recommended_bytes}
use burnout.Layout.ExFat.UpCase.Table.{recommended_table}

abbrev pub heap : Geometry
heap = record {
  sector_bytes = 512;
  cluster_sectors = 8;
  volume_sectors = 8192;
  fat_offset = 2048;
  fat_length = 8;
  heap_offset = 4096;
  cluster_count = 100;
}

abbrev support : Item
support = record {
  path = b's' ∷ [];
  kind = dir_kind;
  name = b's' ∷ [];
  hash = 0;
  run = no_run;
  data_length = 0;
  children = 1 ∷ [];
}

abbrev wim : Item
wim = record {
  path = b's' ∷ b'/' ∷ b'w' ∷ [];
  kind = file_kind;
  name = b'w' ∷ [];
  hash = 0;
  run = no_run;
  data_length = 9000;
  children = [];
}

abbrev pub listed : Placement
listed = record {
  geometry = heap;
  label = none;
  bitmap = no_run;
  upcase = no_run;
  root = no_run;
  root_children = 0 ∷ [];
  items = support ∷ wim ∷ [];
}

abbrev pub placed : Placement
placed = record listed {
  bitmap = record { first = 2; clusters = 1 };
  upcase = record { first = 3; clusters = 2 };
  root = record { first = 5; clusters = 1 };
  items =
      record support { run = record { first = 6; clusters = 1 }; data_length = 4096 }
      ∷ record wim { run = record { first = 7; clusters = 3 } }
      ∷ [];
}

cluster_of_heap : 0 < cluster_bytes heap
unfolding cluster_bytes
cluster_of_heap = omega arith

is_placed : allocate listed ≡ ok placed
unfolding allocate kind_clusters children_bytes run_at clusters_for cluster_bytes bitmap_bytes
    set_entries recommended_bytes recommended_table unit_bytes
is_placed = refl

pub placed-IsAllocated : IsAllocated listed placed
placed-IsAllocated = allocate-IsAllocated listed placed cluster_of_heap is_placed

allocate-IsAllocated_example : IsAllocated listed placed
allocate-IsAllocated_example = allocate-IsAllocated listed placed cluster_of_heap is_placed

support_at_6 : InRun (record { first = 6; clusters = 1 }) 6
unfolding run_end
support_at_6 = omega arith

allocate-apart_example : ¬ InRun (record { first = 7; clusters = 3 }) 6
allocate-apart_example =
    allocate-apart listed placed 0 1 6
      (record support { run = record { first = 6; clusters = 1 }; data_length = 4096 })
      (record wim { run = record { first = 7; clusters = 3 } }) cluster_of_heap is_placed
      (omega arith) refl refl support_at_6
