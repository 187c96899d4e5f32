-- ===== src/Layout/ExFat/Geometry/Parts.antt =====
-- The parts of a volume of crates/burnout-layout/src/exfat/geometry.rs do not overlap and hold what they must.
use mathlib.Core.Path.{subst}
use native.Mathlib.Nat.{div-mul-le_self, mul-mod_left, mul_assoc}
use native.Mathlib.Decide.{dec_lt}
use burnout.Prelude.{
  ℕ, ◌+◌, ◌-◌, ◌*◌, ◌/◌, ◌%◌, ◌≤◌, ◌<◌, ◌≡◌, refl, ap, ◌∙◌, ◌⊎◌, inl, inr, min, ◌&&◌, none, some,
  ltb, ◌==◌, arith, div_ceil, mul_mono, block_lem, Bool-cases, ltb→le,
}
use burnout.Core.Alignment.Rounding.{div_ceil_bounds}
use burnout.Layout.Plan.{align}
use burnout.Layout.ExFat.Geometry.{
  Geometry, new, put_parts, picked_bytes, fat_sectors, heap_start, fat_start, cluster_bytes,
  cluster_offset, first_cluster, max_clusters, is_u32,
}

-- A volume with its parts in order, each with the room that it needs.
pub record InOrder (volume_bytes sector : ℕ) (g : Geometry) : Type 0 where
  pub sector_size : g.sector_bytes ≡ sector
  pub cluster_pos : 0 < g.cluster_sectors
  pub some_cluster : 0 < g.cluster_count
  pub countable : g.cluster_count ≤ max_clusters
  -- The FAT starts 1 MiB into the volume, and has an entry for each cluster and two more.
  pub fat_at : fat_start g ≡ align
  pub fat_room : (g.cluster_count + 2) * 4 ≤ g.fat_length * sector
  -- The heap starts on a whole mebibyte after the FAT.
  pub after_fat : g.fat_offset + g.fat_length ≤ g.heap_offset
  pub heap_whole : g.heap_offset * sector % align ≡ 0
  -- Each cluster lies inside the volume.
  pub inside :
      (cluster : ℕ)
      → first_cluster ≤ cluster
      → cluster < first_cluster + g.cluster_count
      → cluster_offset g cluster + cluster_bytes g ≤ volume_bytes

div_mono : (a b c : ℕ) → 0 < c → a ≤ b → a / c ≤ b / c
div_mono a b c pos h = elim (dec_lt (b / c) (a / c)) [
  | yes more ↦
      let x = block_lem a c pos in
      let y = block_lem b c pos in
      absurd (omega (arith, x, y, mul_mono (b / c + 1) (a / c) c (omega arith)))
  | no few ↦ omega arith
]

div_ceil_mono : (a b c : ℕ) → 0 < c → a ≤ b → div_ceil a c ≤ div_ceil b c
div_ceil_mono a b c pos h = div_mono (a + c - 1) (b + c - 1) c pos (omega arith)

-- The facts that the arithmetic of `new` gives.
module _ (s vs cs heap : ℕ) (s_pos : 0 < s) (cs_pos : 0 < cs) (unit_whole : align / s * s ≡ align)
    (unit_pos : 0 < align / s) where
  abbrev count : ℕ
  count = min ((vs - heap) / cs) max_clusters

  heap_after : heap ≡ heap_start vs cs s → align / s + fat_sectors count s ≤ heap
  unfolding heap_start fat_sectors
  heap_after e =
      let most = (vs - align / s) / cs in
      let b = div_ceil_bounds (align / s + fat_sectors most s) (align / s) unit_pos in
      let less : (vs - heap) / cs ≤ most =
        div_mono (vs - heap) (vs - align / s) cs cs_pos (omega (arith, e, b.0)) in
      let fewer : fat_sectors count s ≤ fat_sectors most s =
        div_ceil_mono ((count + 2) * 4) ((most + 2) * 4) s s_pos (omega (arith, less)) in
      omega (arith, e, b.0, fewer)

  heap-whole : heap ≡ heap_start vs cs s → heap * s % align ≡ 0
  unfolding heap_start
  heap-whole e =
      let q = div_ceil (align / s + fat_sectors ((vs - align / s) / cs) s) (align / s) in
      ap (λ (n : ℕ). n * s % align) e
      ∙ ap (λ (n : ℕ). n % align) (mul_assoc q (align / s) s ∙ ap (λ (n : ℕ). q * n) unit_whole)
      ∙ mul-mod_left q align

  fits_heap : heap ≤ vs → heap + count * cs ≤ vs
  fits_heap h =
      omega
        (arith, div-mul-le_self (vs - heap) cs, mul_mono count ((vs - heap) / cs) cs (omega arith))

  -- A cluster of the heap lies before the end of the volume.
  cluster_inside :
      (vb cluster : ℕ)
      → vs * s ≤ vb
      → heap ≤ vs
      → 2 ≤ cluster
      → cluster < 2 + count
      → heap * s + (cluster - 2) * (cs * s) + cs * s ≤ vb
  cluster_inside vb cluster whole h lo hi =
      let k = cluster - 2 in
      let up : (k + 1) * cs ≤ count * cs = mul_mono (k + 1) count cs (omega arith) in
      let all : (heap + (k + 1) * cs) * s ≤ vs * s =
        mul_mono (heap + (k + 1) * cs) vs s (omega (arith, up, fits_heap h)) in
      let parts : (heap + (k + 1) * cs) * s ≡ heap * s + k * (cs * s) + cs * s =
        ring_parts heap k cs s in
      omega (arith, all, parts)
    where
      ring_parts : (a b c d : ℕ) → (a + (b + 1) * c) * d ≡ a * d + b * (c * d) + c * d
      ring_parts a b c d = omega arith

-- A cluster is whole sectors, one at least.
picked_whole :
    (vb s : ℕ)
    → (s ≡ 512) ⊎ (s ≡ 4096)
    → (0 < picked_bytes vb s / s) × (align / s * s ≡ align) × (0 < align / s) × (0 < s)
unfolding picked_bytes
picked_whole vb s (inl e) = rw e (ground arith, refl, omega arith, omega arith)
picked_whole vb s (inr e) = rw e (ground arith, refl, omega arith, omega arith)

some-injective : {x y : Geometry} → some x ≡ some y → x ≡ y
some-injective h = cc

none-some : {g : Geometry} → none ≡ some g → ⊥
none-some h = cc

put_parts-InOrder :
    (vb s : ℕ) (g : Geometry)
    → (s ≡ 512) ⊎ (s ≡ 4096)
    → heap_start (vb / s) (picked_bytes vb s / s) s ≤ vb / s
    → put_parts s (vb / s) (picked_bytes vb s / s) (heap_start (vb / s) (picked_bytes vb s / s) s)
      ≡ some g
    → InOrder vb s g
unfolding put_parts fat_start cluster_bytes cluster_offset fat_sectors
put_parts-InOrder vb s g kind room h =
    let vs = vb / s in
    let cs = picked_bytes vb s / s in
    let heap = heap_start vs cs s in
    let (cs_pos, unit_whole, unit_pos, s_pos) = picked_whole vb s kind in
    let n = count s vs cs heap s_pos cs_pos unit_whole unit_pos in
    let fits = is_u32 (align / s) && is_u32 (fat_sectors n s) && is_u32 heap in
    let parts : Geometry = record {
      sector_bytes = s;
      cluster_sectors = cs;
      volume_sectors = vs;
      fat_offset = align / s;
      fat_length = fat_sectors n s;
      heap_offset = heap;
      cluster_count = n;
    } in
    elim (Bool-cases (n == 0)) [
      | inl e ↦ absurd (none-some (rw e at h))
      | inr e ↦ elim (Bool-cases fits) [
        | inl y ↦ subst (InOrder vb s) (some-injective (rw (e, y) at h)) (record {
          sector_size = refl;
          cluster_pos = cs_pos;
          some_cluster = ground (arith, e);
          countable = omega arith;
          fat_at = unit_whole;
          fat_room = (div_ceil_bounds ((n + 2) * 4) s s_pos).0;
          after_fat = heap_after s vs cs heap s_pos cs_pos unit_whole unit_pos refl;
          heap_whole = heap-whole s vs cs heap s_pos cs_pos unit_whole unit_pos refl;
          inside = λ cluster lo hi.
              cluster_inside s vs cs heap s_pos cs_pos unit_whole unit_pos vb cluster
                (div-mul-le_self vb s) room lo hi;
        })
        | inr y ↦ absurd (none-some (rw (e, y) at h))
      ]
    ]

-- On sectors of 512 or 4096 bytes, a geometry that is given is in order: the FAT starts one mebibyte into
-- the volume and has an entry for each cluster and two more; the cluster heap starts on a whole mebibyte
-- after the FAT; there is a cluster at least, no more than a FAT can count, and each lies inside the volume.
pub new-InOrder :
    (volume_bytes sector : ℕ) (g : Geometry)
    → (sector ≡ 512) ⊎ (sector ≡ 4096)
    → new volume_bytes sector ≡ some g
    → InOrder volume_bytes sector g
unfolding new
new-InOrder vb s g kind h =
    let vs = vb / s in
    let heap = heap_start vs (picked_bytes vb s / s) s in
    elim (Bool-cases (ltb vs (align / s))) [
      | inl e ↦ absurd (none-some (rw e at h))
      | inr e ↦ elim (Bool-cases (ltb vs heap)) [
        | inl x ↦ absurd (none-some (rw (e, x) at h))
        | inr x ↦ put_parts-InOrder vb s g kind (ltb→le vs heap x) (rw (e, x) at h)
      ]
    ]
