-- ===== src/Layout/ExFat/Writer/Runs.antt =====
-- The runs that crates/burnout-layout/src/exfat/write.rs writes lie in the heap of the volume.
use mathlib.Core.Path.{subst}
use burnout.Prelude.{
  ℕ, zero, suc, ◌+◌, ◌*◌, ◌≤◌, ◌<◌, ◌≡◌, ap, ◌∙◌, sym, false, List, ◌∷◌, length, arith, leb, ◌==◌,
  if◌then◌else◌,
}
use burnout.Core.Alignment.Rounding.{div_ceil_bounds}
use burnout.Layout.ExFat.Geometry.{Geometry, first_cluster, cluster_bytes, bitmap_bytes}
use burnout.Layout.ExFat.Sums.{unit_bytes}
use burnout.Layout.ExFat.UpCase.{recommended_bytes}
use burnout.Layout.ExFat.UpCase.Table.{recommended_table}
use burnout.Layout.ExFat.Place.{Run, run_end, run_at, Placement, used_clusters}
use burnout.Layout.ExFat.Place.Runs.{AllPlaced-le}
use burnout.Layout.ExFat.Place.Allocated.{IsAllocated}

units_some : (u : ℕ) (us : List ℕ) → 0 < length (unit_bytes (u ∷ us))
unfolding unit_bytes
units_some u us = omega arith

some_table : 0 < length recommended_bytes
unfolding recommended_bytes recommended_table
some_table = units_some 0 _

some_clusters : (n k c : ℕ) → 0 < n → n ≤ k * c → 0 < k
some_clusters n zero c pos h = omega (arith, pos, h)
some_clusters n (suc k) c pos h = omega arith

-- The first cluster of a run that has clusters.
pub first-run_at :
    (r : Run) (next : ℕ) → r ≡ run_at next r.clusters → 0 < r.clusters → r.first ≡ next
unfolding run_at
first-run_at r next h pos = ap (λ (x : Run). x.first) h ∙ ground arith

-- A run before the first cluster has none.
pub no_run_at :
    (r : Run) (next : ℕ)
    → r ≡ run_at next r.clusters
    → first_cluster ≤ next
    → leb first_cluster r.first ≡ false
    → r.clusters ≡ 0
unfolding run_at
no_run_at r next h from before =
    let first : r.first ≡ (if r.clusters == 0 then 0 else next) = ap (λ (x : Run). x.first) h in
    ground (arith, first, from, before)

-- A run that starts in the heap ends where its clusters do.
pub run_at-first :
    (r : Run) (next : ℕ) → r ≡ run_at next r.clusters → first_cluster ≤ r.first → r.first ≡ next
unfolding run_at
run_at-first r next h from =
    let first : r.first ≡ (if r.clusters == 0 then 0 else next) = ap (λ (x : Run). x.first) h in
    ground (arith, first, from)

-- A run of the heap.
pub record HasHeap (g : Geometry) (r : Run) : Type 0 where
  pub from : first_cluster ≤ r.first
  pub to : r.first + r.clusters ≤ first_cluster + g.cluster_count

-- The three runs of the volume itself, and where the items start.
pub record HasRuns (p : Placement) : Type 0 where
  pub bitmap : HasHeap p.geometry p.bitmap
  pub upcase : HasHeap p.geometry p.upcase
  pub root : HasHeap p.geometry p.root

pub IsAllocated-HasRuns :
    (listed p : Placement) → 0 < p.geometry.cluster_count → IsAllocated listed p → HasRuns p
unfolding run_end bitmap_bytes
IsAllocated-HasRuns listed p count w =
    let g = listed.geometry in
    let clusters : 0 < g.cluster_count =
      subst (λ (x : Geometry). 0 < x.cluster_count) w.geometry count in
    let bits : 0 < bitmap_bytes g =
      omega (arith, clusters, div_ceil_bounds g.cluster_count 8 (omega arith)) in
    let b =
      first-run_at p.bitmap 2 w.bitmap
        (some_clusters (bitmap_bytes g) p.bitmap.clusters (cluster_bytes g) bits w.bitmap_room) in
    let u = first-run_at p.upcase (2 + p.bitmap.clusters) w.upcase (
      some_clusters (length recommended_bytes) p.upcase.clusters (cluster_bytes g) some_table
        w.upcase_room) in
    let r = first-run_at p.root (2 + p.bitmap.clusters + p.upcase.clusters) w.root w.some_root in
    let ends =
      AllPlaced-le g listed.items (run_end p.root) listed.items p.items
        (first_cluster + used_clusters p) w.items in
    let inside : used_clusters p ≤ p.geometry.cluster_count =
      subst (λ (x : Geometry). used_clusters p ≤ x.cluster_count) (sym w.geometry) w.inside in
    record {
      bitmap = record { from = omega (arith, b); to = omega (arith, b, r, ends, inside) };
      upcase = record { from = omega (arith, u); to = omega (arith, u, r, ends, inside) };
      root = record { from = omega (arith, r); to = omega (arith, ends, inside) };
    }
