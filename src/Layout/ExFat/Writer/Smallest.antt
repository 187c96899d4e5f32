-- ===== src/Layout/ExFat/Writer/Smallest.antt =====
-- `min_volume_bytes` of crates/burnout-layout/src/exfat/place.rs ends before its fuel does.
use mathlib.Core.Path.{subst}
use burnout.Prelude.{
  ℕ, zero, suc, ◌+◌, ◌*◌, ◌/◌, ◌≤◌, ◌≡◌, refl, ◌⊎◌, inl, inr, true, Bool-cases, arith,
}
use burnout.Layout.ExFat.Geometry.{
  new, heap_start, fat_sectors, picked_bytes, put_parts, bitmap_bytes, clusters_for, cluster_bytes,
}
use burnout.Layout.ExFat.Sums.{unit_bytes}
use burnout.Layout.ExFat.UpCase.{recommended_bytes}
use burnout.Layout.ExFat.UpCase.Table.{recommended_table}
use burnout.Layout.ExFat.Place.{
  new as place_tree, allocate, list_entries, all_clusters, total, root_entry_bytes, children_bytes,
}
use burnout.Layout.ExFat.Writer.{holds_nothing, smallest, min_volume_bytes}

four_mebibytes : (s : ℕ) → (s ≡ 512) ⊎ (s ≡ 4096) → holds_nothing s (4 * 1024 * 1024) ≡ true
unfolding holds_nothing new heap_start fat_sectors picked_bytes put_parts bitmap_bytes clusters_for
    cluster_bytes place_tree allocate list_entries all_clusters total root_entry_bytes
    children_bytes recommended_bytes recommended_table unit_bytes
four_mebibytes s (inl e) = rw e refl
four_mebibytes s (inr e) = rw e refl

-- A volume that is reached and holds the file system ends the search.
smallest-found :
    (fuel k sector bytes : ℕ)
    → k ≤ fuel
    → holds_nothing sector (bytes + k * sector) ≡ true
    → holds_nothing sector (smallest fuel sector bytes) ≡ true
unfolding smallest
smallest-found zero zero sector bytes le h =
    let e : bytes + 0 * sector ≡ bytes = omega arith in
    subst (λ (n : ℕ). holds_nothing sector n ≡ true) e h
smallest-found zero (suc k) sector bytes le h = absurd (omega (arith, le))
smallest-found (suc fuel) zero sector bytes le h =
    let e : bytes + 0 * sector ≡ bytes = omega arith in
    let here = subst (λ (n : ℕ). holds_nothing sector n ≡ true) e h in rw here here
smallest-found (suc fuel) (suc k) sector bytes le h =
    let e : bytes + suc k * sector ≡ bytes + sector + k * sector = omega arith in
    let rest =
      smallest-found fuel k sector (bytes + sector) (omega (arith, le))
        (subst (λ (n : ℕ). holds_nothing sector n ≡ true) e h) in
    elim (Bool-cases (holds_nothing sector bytes)) [
      | inl found ↦ rw found found
      | inr small ↦ rw small rest
    ]

-- With sectors of 512 or 4096 bytes the volume that `min_volume_bytes` names holds an empty file system.
min_volume_bytes-holds :
    (s : ℕ) → (s ≡ 512) ⊎ (s ≡ 4096) → holds_nothing s (min_volume_bytes s) ≡ true
unfolding min_volume_bytes
min_volume_bytes-holds s kind =
    smallest-found (3 * 1024 * 1024 / s) (3 * 1024 * 1024 / s) s (1024 * 1024) (omega arith)
      (subst (λ (n : ℕ). holds_nothing s n ≡ true) (reached s kind) (four_mebibytes s kind))
  where
    reached :
        (s : ℕ) → (s ≡ 512) ⊎ (s ≡ 4096) → 4 * 1024 * 1024 ≡ 1024 * 1024 + 3 * 1024 * 1024 / s * s
    reached s (inl e) = rw e refl
    reached s (inr e) = rw e refl
