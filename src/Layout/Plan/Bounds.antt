-- ===== src/Layout/Plan/Bounds.antt =====
-- Where the plan of crates/burnout-layout/src/plan.rs puts the two partitions.
use native.Mathlib.Decide.{dec_le}
use burnout.Prelude.{
  ℕ, ◌+◌, ◌-◌, ◌*◌, ◌%◌, ◌^◌, ◌≤◌, ◌<◌, ◌≡◌, ◌⊎◌, inl, inr, refl, sym, ◌∙◌, arith, min,
}
use burnout.Core.Error.{ok, err, too_small}
use burnout.Core.Alignment.{check_sector_size, check_aligned}
use burnout.Layout.Plan.{Layout, align, mbr_sectors, boot_extent, laid_out, place, plan}

-- The boot partition holds what it is asked to hold, in whole mebibytes and less than one to spare.
boot_extent_lem :
    (b : ℕ)
    → b ≤ 2 ^ 62
    → (b ≤ (boot_extent b).length)
      × (0 < (boot_extent b).length)
      × ((boot_extent b).length < b + 2 * align)
      × ((boot_extent b).length % align ≡ 0)
unfolding boot_extent
boot_extent_lem b h = omega arith

boot_start : (b : ℕ) → (boot_extent b).start ≡ align
unfolding boot_extent
boot_start b = refl

-- A layout that a drive can carry.
pub record IsSound (drive_bytes boot_bytes : ℕ) (l : Layout) : Type 0 where
  pub sector : (l.sector_size ≡ 512) ⊎ (l.sector_size ≡ 4096)
  pub drive : l.drive_bytes ≡ drive_bytes
  -- Both partitions start and end on a mebibyte.
  pub boot_start : l.boot.start ≡ align
  pub boot_whole : l.boot.length % align ≡ 0
  pub install_whole : l.install.length % align ≡ 0
  -- The boot partition holds what was asked for, and less than a mebibyte more.
  pub boot_holds : boot_bytes ≤ l.boot.length
  pub boot_tight : l.boot.length < boot_bytes + 2 * align
  -- The install partition follows it with no gap, and has a mebibyte at least.
  pub follows : l.install.start ≡ l.boot.start + l.boot.length
  pub install_room : align ≤ l.install.length
  -- It ends on the drive, and no whole mebibyte that the table can name is left behind it.
  pub on_drive : l.install.start + l.install.length ≤ drive_bytes
  pub in_table : l.install.start + l.install.length ≤ mbr_sectors * l.sector_size
  pub takes_rest :
      min drive_bytes (mbr_sectors * l.sector_size) < l.install.start + l.install.length + align
  -- What the table cannot name is counted.
  pub beyond : l.beyond_table ≡ drive_bytes - mbr_sectors * l.sector_size

-- The plan for a drive of each sector size, once the two checks have passed.
place-IsSound :
    (d s b : ℕ) {l : Layout}
    → d < 2 ^ 64
    → b ≤ 2 ^ 62
    → (s ≡ 512) ⊎ (s ≡ 4096)
    → place d s (boot_extent b) ≡ ok l
    → IsSound d b l
unfolding place
place-IsSound d s b hd hb (inl e) h = ground (arith, e, boot_extent_lem b hb, boot_start b)
place-IsSound d s b hd hb (inr e) h = ground (arith, e, boot_extent_lem b hb, boot_start b)

-- What the layout needs: the mebibyte before the boot partition, that partition, and a mebibyte for
-- the install partition.
abbrev pub needed : ℕ → ℕ
needed b = align + (boot_extent b).length + align

place_decides :
    (d s b : ℕ)
    → d < 2 ^ 64
    → b ≤ 2 ^ 62
    → (s ≡ 512) ⊎ (s ≡ 4096)
    → ((l : Layout) × (place d s (boot_extent b) ≡ ok l) × (needed b ≤ min d (mbr_sectors * s)))
      ⊎ ((place d s (boot_extent b) ≡ err (too_small (needed b) d))
          × (min d (mbr_sectors * s) < needed b))
unfolding place
place_decides d s b hd hb which = elim (dec_le (needed b) (min d (mbr_sectors * s))) [
  | yes h ↦ inl (laid_out d s (boot_extent b), room which h, h)
  | no h ↦ inr (no_room which h, omega arith)
]
  where
    room :
        (s ≡ 512) ⊎ (s ≡ 4096)
        → needed b ≤ min d (mbr_sectors * s)
        → place d s (boot_extent b) ≡ ok (laid_out d s (boot_extent b))
    room (inl e) h = ground (arith, boot_extent_lem b hb, boot_start b)
    room (inr e) h = ground (arith, boot_extent_lem b hb, boot_start b)

    no_room :
        (s ≡ 512) ⊎ (s ≡ 4096)
        → ¬ (needed b ≤ min d (mbr_sectors * s))
        → place d s (boot_extent b) ≡ err (too_small (needed b) d)
    no_room (inl e) h = ground (arith, boot_extent_lem b hb, boot_start b)
    no_room (inr e) h = ground (arith, boot_extent_lem b hb, boot_start b)

-- The two checks pass exactly a drive of whole sectors of a size that Burnout writes.
plan_checked :
    (d s b : ℕ) → (s ≡ 512) ⊎ (s ≡ 4096) → d % s ≡ 0 → plan d s b ≡ place d s (boot_extent b)
unfolding plan check_sector_size check_aligned
plan_checked d s b (inl e) whole = ground (arith, e)
plan_checked d s b (inr e) whole = ground (arith, e)

plan_sector : (d s b : ℕ) {l : Layout} → plan d s b ≡ ok l → (s ≡ 512) ⊎ (s ≡ 4096)
unfolding plan check_sector_size
plan_sector d s b h = ground arith

plan_whole : (d s b : ℕ) {l : Layout} → plan d s b ≡ ok l → d % s ≡ 0
unfolding plan check_sector_size check_aligned
plan_whole d s b h = ground arith

-- A plan that is made is sound, for a drive size in 64 bits and a boot partition of at most 2 ^ 62
-- bytes: the partitions lie on whole mebibytes, one after the other with no gap, on the drive and in
-- what the table can name; the boot partition holds what was asked for with less than two mebibytes to
-- spare, the install partition takes the rest but for less than a mebibyte, and what the table cannot
-- name is counted.
pub plan-IsSound :
    (drive_bytes sector_size boot_bytes : ℕ) {l : Layout}
    → drive_bytes < 2 ^ 64
    → boot_bytes ≤ 2 ^ 62
    → plan drive_bytes sector_size boot_bytes ≡ ok l
    → IsSound drive_bytes boot_bytes l
plan-IsSound d s b hd hb h =
    place-IsSound d s b hd hb (plan_sector d s b h)
      (sym (plan_checked d s b (plan_sector d s b h) (plan_whole d s b h)) ∙ h)

-- On a drive of whole sectors of a supported size, a plan is made exactly when the drive and the
-- table both reach what the layout needs; if not, the refusal names that size and the drive's.
pub plan_decides :
    (d s b : ℕ)
    → d < 2 ^ 64
    → b ≤ 2 ^ 62
    → (s ≡ 512) ⊎ (s ≡ 4096)
    → d % s ≡ 0
    → ((l : Layout) × (plan d s b ≡ ok l) × (needed b ≤ min d (mbr_sectors * s)))
      ⊎ ((plan d s b ≡ err (too_small (needed b) d)) × (min d (mbr_sectors * s) < needed b))
plan_decides d s b hd hb which whole =
    rw (plan_checked d s b which whole) (place_decides d s b hd hb which)
