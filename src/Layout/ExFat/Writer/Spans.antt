-- ===== src/Layout/ExFat/Writer/Spans.antt =====
-- Where the writes of crates/burnout-layout/src/exfat/write.rs go: whole sectors inside the volume, none of
-- them before the FAT.
use native.Mathlib.Nat.{mul_assoc, div-lt_iff_lt-mul}
use burnout.Prelude.{
  ℕ, ◌+◌, ◌-◌, ◌*◌, ◌/◌, ◌%◌, ◌≤◌, ◌<◌, ◌≡◌, ap, ◌∙◌, sym, ◌⊎◌, inl, inr, Bool-cases, min, some,
  List, length, replicate, take, arith, ltb, ◌==◌, ◌&&◌, mul_mono, mul_whole, add_whole, div_ceil,
  length-append, length-replicate, length-take,
}
use burnout.Layout.Plan.{align}
use burnout.Layout.Stream.{chunk_bytes}
use burnout.Layout.ExFat.Geometry.{
  Geometry, new, put_parts, picked_bytes, heap_start, cluster_bytes, cluster_offset, first_cluster,
  fat_start, is_u32, fat_sectors, max_clusters,
}
use burnout.Layout.ExFat.Geometry.Parts.{InOrder, new-InOrder}
use burnout.Layout.ExFat.Place.{resize}

pub length-resize : (bytes : List ℕ) (n : ℕ) → length (resize bytes n) ≡ n
length-resize bytes n =
    length-append (take n bytes) (replicate (n - length bytes) 0)
    ∙ omega (arith, length-take n bytes, length-replicate {A = ℕ} (n - length bytes) 0)

-- The whole clusters of some bytes that fit into whole clusters fit too.
pub ceil_within : (n k c : ℕ) → 0 < c → n ≤ k * c → div_ceil n c * c ≤ k * c
ceil_within n k c pos h =
    let few : div_ceil n c < k + 1 =
      (div-lt_iff_lt-mul {k = c} {x = n + c - 1} {y = k + 1} pos).1 (omega (arith, h, pos)) in
    mul_mono (div_ceil n c) k c (omega (arith, few))

picked_whole :
    (vb s : ℕ)
    → (s ≡ 512) ⊎ (s ≡ 4096)
    → (picked_bytes vb s / s * s ≡ picked_bytes vb s)
      × (chunk_bytes % picked_bytes vb s ≡ 0)
      × (0 < picked_bytes vb s)
unfolding picked_bytes
picked_whole vb s (inl e) = rw e (ground arith, ground arith, omega arith)
picked_whole vb s (inr e) = rw e (ground arith, ground arith, omega arith)

put_parts-cluster :
    (s vs cs heap : ℕ) (g : Geometry) → put_parts s vs cs heap ≡ some g → cluster_bytes g ≡ cs * s
unfolding put_parts cluster_bytes
put_parts-cluster s vs cs heap g h =
    let n = min ((vs - heap) / cs) max_clusters in
    let fits = is_u32 (align / s) && is_u32 (fat_sectors n s) && is_u32 heap in
    elim (Bool-cases (n == 0)) [
      | inl e ↦ cc (rw e at h)
      | inr e ↦ elim (Bool-cases fits) [
        | inl y ↦ cc (rw e at rw y at h)
        | inr y ↦ cc (rw e at rw y at h)
      ]
    ]

new-cluster :
    (vb s : ℕ) (g : Geometry) → new vb s ≡ some g → cluster_bytes g ≡ picked_bytes vb s / s * s
unfolding new
new-cluster vb s g h =
    let vs = vb / s in
    let heap = heap_start vs (picked_bytes vb s / s) s in
    elim (Bool-cases (ltb vs (align / s))) [
      | inl e ↦ cc (rw e at h)
      | inr e ↦ elim (Bool-cases (ltb vs heap)) [
        | inl x ↦ cc (rw e at rw x at h)
        | inr x ↦ put_parts-cluster s vs (picked_bytes vb s / s) heap g (rw e at rw x at h)
      ]
    ]

-- What the places of a volume have in common.
pub record Spans (volume_bytes : ℕ) (g : Geometry) : Type 0 where
  pub cluster_some : 0 < cluster_bytes g
  pub cluster_whole : cluster_bytes g % g.sector_bytes ≡ 0
  pub chunk_whole : chunk_bytes % cluster_bytes g ≡ 0
  pub offset_whole : (c : ℕ) → cluster_offset g c % g.sector_bytes ≡ 0
  pub offset_after : (c : ℕ) → align ≤ cluster_offset g c
  pub run_room :
      (first n : ℕ)
      → first_cluster ≤ first
      → first + n ≤ first_cluster + g.cluster_count
      → cluster_offset g first + n * cluster_bytes g ≤ volume_bytes
  pub fat_at : fat_start g ≡ align
  pub fat_whole : fat_start g % g.sector_bytes ≡ 0
  pub fat_room : (g.cluster_count + 2) * 4 ≤ g.fat_length * g.sector_bytes
  pub fat_inside : fat_start g + g.fat_length * g.sector_bytes ≤ volume_bytes

module _ (vb s : ℕ) (g : Geometry) (kind : (s ≡ 512) ⊎ (s ≡ 4096)) (h : new vb s ≡ some g) where
  ordered : InOrder vb s g
  ordered = new-InOrder vb s g kind h

  cluster_eq : cluster_bytes g ≡ picked_bytes vb s
  cluster_eq = new-cluster vb s g h ∙ (picked_whole vb s kind).0

  after : (c : ℕ) → fat_start g + g.fat_length * g.sector_bytes ≤ cluster_offset g c
  unfolding fat_start cluster_offset
  after c =
      omega (
        arith,
        mul_mono (g.fat_offset + g.fat_length) g.heap_offset g.sector_bytes ordered.after_fat,
      )

  heap_room :
      (first n : ℕ)
      → first_cluster ≤ first
      → first + n ≤ first_cluster + g.cluster_count
      → cluster_offset g first + n * cluster_bytes g ≤ vb
  unfolding cluster_offset
  heap_room first n from to =
      let cb = cluster_bytes g in
      let count = g.cluster_count in
      let last = ordered.inside (count + 1) (omega (arith, ordered.some_cluster)) (omega arith) in
      let all : (count + 1 - 2 + 1) * cb ≡ count * cb =
        ap (λ (m : ℕ). m * cb) (omega (arith, ordered.some_cluster)) in
      let up : (first - 2 + n) * cb ≤ count * cb =
        mul_mono (first - 2 + n) count cb (omega (arith, from, to)) in
      omega (arith, last, all, up)

  offset_whole_lem : (c : ℕ) → cluster_offset g c % g.sector_bytes ≡ 0
  unfolding cluster_offset cluster_bytes
  offset_whole_lem c =
      add_whole (g.heap_offset * g.sector_bytes) ((c - 2) * (g.cluster_sectors * g.sector_bytes))
        g.sector_bytes (mul_whole g.heap_offset g.sector_bytes)
        (ap (λ (m : ℕ). m % g.sector_bytes)
            (sym (mul_assoc (c - 2) g.cluster_sectors g.sector_bytes))
          ∙ mul_whole ((c - 2) * g.cluster_sectors) g.sector_bytes)

  -- A geometry that is given has them.
  pub new-Spans : Spans vb g
  unfolding cluster_bytes fat_start
  new-Spans =
      let (whole, chunks, some_bytes) = picked_whole vb s kind in
      record {
        cluster_some = rw cluster_eq some_bytes;
        cluster_whole = mul_whole g.cluster_sectors g.sector_bytes;
        chunk_whole = rw cluster_eq chunks;
        offset_whole = offset_whole_lem;
        offset_after = λ c. omega (arith, after c, ordered.fat_at);
        run_room = heap_room;
        fat_at = ordered.fat_at;
        fat_whole = mul_whole g.fat_offset g.sector_bytes;
        fat_room = rw ordered.sector_size ordered.fat_room;
        fat_inside = omega (arith, after 2, heap_room 2 0 (omega arith) (omega arith));
      }
