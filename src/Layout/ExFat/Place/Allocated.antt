-- ===== src/Layout/ExFat/Place/Allocated.antt =====
-- What `allocate` of crates/burnout-layout/src/exfat/place.rs gives, and what it refuses.
use mathlib.Core.Path.{subst, subst₂}
use native.Mathlib.Nat.{le_trans}
use burnout.Prelude.{
  ℕ, ◌+◌, ◌*◌, ◌≤◌, ◌<◌, ◌≡◌, refl, sym, Bool-cases, inl, inr, max, some, List, length, get_elem?,
  arith, ltb, ltb→le, mul_mono,
}
use burnout.Core.Error.{ok, bind-eq-ok, ok-injective}
use burnout.Layout.ExFat.Geometry.{first_cluster, cluster_bytes, clusters_for, bitmap_bytes}
use burnout.Layout.ExFat.UpCase.{recommended_bytes}
use burnout.Layout.ExFat.Place.{
  run_end, Item, Placement, all_clusters, total, run_at, place_all, place_items, root_entry_bytes,
  allocate, used_clusters,
}
use burnout.Layout.ExFat.Place.Runs.{
  AllPlaced, place_items-AllPlaced, last_end-AllPlaced, clusters_for_room, InRun, placed_apart,
  run_end-run_at,
}

-- The bitmap, the up-case table and the root directory come first, from the first cluster on, and then each
-- item in the order of the tree; each has the clusters that it needs, and all of them are in the heap.
pub record IsAllocated (p q : Placement) : Type 0 where
  pub geometry : q.geometry ≡ p.geometry
  pub bitmap : q.bitmap ≡ run_at first_cluster q.bitmap.clusters
  pub upcase : q.upcase ≡ run_at (first_cluster + q.bitmap.clusters) q.upcase.clusters
  pub root : q.root ≡ run_at (first_cluster + q.bitmap.clusters + q.upcase.clusters) q.root.clusters
  pub some_root : 0 < q.root.clusters
  pub bitmap_room : bitmap_bytes p.geometry ≤ q.bitmap.clusters * cluster_bytes p.geometry
  pub upcase_room : length recommended_bytes ≤ q.upcase.clusters * cluster_bytes p.geometry
  pub root_room : root_entry_bytes p ≤ q.root.clusters * cluster_bytes p.geometry
  pub items :
      AllPlaced p.geometry p.items
        (run_end q.root)
        p.items
        q.items
        (first_cluster + used_clusters q)
  pub inside : used_clusters q ≤ p.geometry.cluster_count

module _ (p : Placement) (pos : 0 < cluster_bytes p.geometry) (counts : List ℕ)
    (counted : all_clusters p.geometry p.items p.items ≡ ok counts) (b u r : ℕ)
    (some_root : 0 < r) where
  all_placed :
      AllPlaced p.geometry p.items
        (first_cluster + b + u + r)
        p.items
        (place_items p.geometry (first_cluster + b + u + r) p.items counts)
        (first_cluster + b + u + r + total counts)
  all_placed =
      place_items-AllPlaced p.geometry p.items pos (first_cluster + b + u + r) p.items counts
        counted

  pub used_eq : used_clusters (place_all p b u r counts) ≡ b + u + r + total counts
  unfolding used_clusters place_all
  used_eq =
      let e = run_end-run_at (first_cluster + b + u) r some_root in
      let l =
        last_end-AllPlaced p.geometry p.items (first_cluster + b + u + r) p.items
          (place_items p.geometry (first_cluster + b + u + r) p.items counts)
          (first_cluster + b + u + r + total counts) all_placed in
      rw (e, l) (omega arith)

  place_all-IsAllocated :
      bitmap_bytes p.geometry ≤ b * cluster_bytes p.geometry
      → length recommended_bytes ≤ u * cluster_bytes p.geometry
      → root_entry_bytes p ≤ r * cluster_bytes p.geometry
      → b + u + r + total counts ≤ p.geometry.cluster_count
      → IsAllocated p (place_all p b u r counts)
  unfolding place_all run_at
  place_all-IsAllocated hb hu hr inside = record {
    geometry = refl;
    bitmap = refl;
    upcase = refl;
    root = refl;
    some_root = some_root;
    bitmap_room = hb;
    upcase_room = hu;
    root_room = hr;
    items =
        subst₂
          (λ s e.
            AllPlaced p.geometry p.items s p.items
              (place_items p.geometry (first_cluster + b + u + r) p.items counts) e)
          (sym (run_end-run_at (first_cluster + b + u) r some_root)) (omega (arith, used_eq))
          all_placed;
    inside = omega (arith, used_eq);
  }

-- Where `allocate` gives a placement, the bitmap, the up-case table, the root directory and the items follow
-- each other from the first cluster on in this order, each has the clusters that its bytes need, a directory
-- at least one, and the last of them ends inside the heap; the clusters in use are those up to there.
pub allocate-IsAllocated :
    (p q : Placement) → 0 < cluster_bytes p.geometry → allocate p ≡ ok q → IsAllocated p q
unfolding allocate
allocate-IsAllocated p q pos h =
    let g = p.geometry in
    let (counts, counted, rest) = bind-eq-ok (all_clusters g p.items p.items) h in
    let b = clusters_for g (bitmap_bytes g) in
    let u = clusters_for g (length recommended_bytes) in
    let r = max (clusters_for g (root_entry_bytes p)) 1 in
    elim (Bool-cases (ltb g.cluster_count (b + u + r + total counts))) [
      | inl more ↦ cc (rw more at rest)
      | inr few ↦ subst (IsAllocated p) (ok-injective (rw few at rest)) (
          place_all-IsAllocated p pos counts counted b u r (omega arith)
            (clusters_for_room g p.items pos (bitmap_bytes g))
            (clusters_for_room g p.items pos (length recommended_bytes))
            (le_trans (clusters_for_room g p.items pos (root_entry_bytes p))
              (mul_mono (clusters_for g (root_entry_bytes p)) r (cluster_bytes g) (omega arith)))
            (ltb→le g.cluster_count (b + u + r + total counts) few))
    ]

-- In what `allocate` gives no cluster belongs to two items.
pub allocate-apart :
    (p q : Placement) (k m cluster : ℕ) (a b : Item)
    → 0 < cluster_bytes p.geometry
    → allocate p ≡ ok q
    → k < m
    → get_elem? q.items k ≡ some a
    → get_elem? q.items m ≡ some b
    → InRun a.run cluster
    → ¬ InRun b.run cluster
allocate-apart p q k m cluster a b pos h lt f f' r r' =
    let w = allocate-IsAllocated p q pos h in
    placed_apart p.geometry p.items (run_end q.root) p.items q.items
      (first_cluster + used_clusters q) k m a b cluster w.items lt f f' r r'
