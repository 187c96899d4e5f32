-- ===== src/Layout/ExFat/Writer/Parts.antt =====
-- The FAT, the runs and the pieces of a file that crates/burnout-layout/src/exfat/write.rs writes: each of
-- these calls answers over a device, and leaves the first mebibyte of the volume as it is.
use burnout.Prelude.{
  ℕ, ◌+◌, ◌-◌, ◌*◌, ◌/◌, ◌%◌, ◌≤◌, ◌<◌, ◌≡◌, ap, ◌∙◌, sym, List, length, arith, whole_quotient,
  mul_whole, add_whole, sub_whole,
}
use burnout.Core.Target.{Target}
use burnout.Core.Target.Device.{IsDevice}
use burnout.Layout.Stream.{chunk_bytes}
use burnout.Layout.ExFat.Geometry.{
  Geometry, cluster_bytes, cluster_offset, first_cluster, fat_start,
}
use burnout.Layout.ExFat.Place.{Run, run_end, Placement, resize}
use burnout.Layout.ExFat.Write.{fat_head}
use burnout.Layout.ExFat.Writer.{write_run, write_fat}
use burnout.Layout.ExFat.Writer.Spans.{Spans, length-resize}
use burnout.Layout.ExFat.Writer.Kept.{
  fat_head-HeadFits, Keeps, Keeps-trans, Done, put-Done, write_zeros-Done,
}

pub whole_trans : (a b c : ℕ) → a % b ≡ 0 → b % c ≡ 0 → a % c ≡ 0
whole_trans a b c p q =
    let e : a ≡ a / b * (b / c) * c =
      sym (whole_quotient a b p)
      ∙ ap (λ (n : ℕ). a / b * n) (sym (whole_quotient b c q))
      ∙ omega arith in
    rw e (mul_whole (a / b * (b / c)) c)

module _ {T : Type 0} (volume : Target T) (Valid : T → Type 0) (byte : T → ℕ → ℕ) (at : T → ℕ)
    (device : IsDevice volume Valid byte at) (vb : ℕ) (g : Geometry) (spans : Spans vb g) where
  -- A volume of this shape.
  pub record On (t : T) : Type 0 where
    pub valid : Valid t
    pub sector : volume.logical_sector_size t ≡ g.sector_bytes
    pub size : volume.size t ≡ vb

  pub Keeps-On : {t t' : T} → On t → Keeps volume Valid byte at device t t' → On t'
  Keeps-On o k = record {
    valid = k.same.valid;
    sector = k.same.sector ∙ o.sector;
    size = k.same.size ∙ o.size;
  }

  sector_some : (t : T) → On t → 0 < g.sector_bytes
  sector_some t o = rw (← o.sector) (device.sector_pos t o.valid)

  pub chunk_sectors : chunk_bytes % g.sector_bytes ≡ 0
  chunk_sectors =
      whole_trans chunk_bytes (cluster_bytes g) g.sector_bytes spans.chunk_whole spans.cluster_whole

  -- Whole clusters are whole sectors.
  pub clusters_whole : (n : ℕ) → n * cluster_bytes g % g.sector_bytes ≡ 0
  clusters_whole n =
      whole_trans (n * cluster_bytes g) (cluster_bytes g) g.sector_bytes
        (mul_whole n (cluster_bytes g)) spans.cluster_whole

  pub write_run-Done :
      (run : Run) (bytes : List ℕ) (t : T)
      → On t
      → first_cluster ≤ run.first
      → run.first + run.clusters ≤ first_cluster + g.cluster_count
      → Done volume Valid byte at device t (write_run volume g run bytes t)
  unfolding write_run
  write_run-Done run bytes t o from to =
      let n = run.clusters * cluster_bytes g in
      let size : length (resize bytes n) ≡ n = length-resize bytes n in
      (put-Done volume Valid byte at device (cluster_offset g run.first) (resize bytes n) t o.valid
        (rw o.sector (spans.offset_whole run.first))
        (rw (o.sector, size) (clusters_whole run.clusters))
        (rw (size, o.size) (spans.run_room run.first run.clusters from to))
        (spans.offset_after run.first)).0

module _ {T : Type 0} (volume : Target T) (Valid : T → Type 0) (byte : T → ℕ → ℕ) (at : T → ℕ)
    (device : IsDevice volume Valid byte at) (vb : ℕ) (p : Placement)
    (spans : Spans vb p.geometry) where
  pub write_fat-Done :
      (t : T)
      → On volume Valid byte at device vb p.geometry spans t
      → run_end p.root ≤ first_cluster + p.geometry.cluster_count
      → Done volume Valid byte at device t (write_fat volume p t)
  unfolding write_fat
  write_fat-Done t o to =
      let g = p.geometry in
      let s = g.sector_bytes in
      let head = fat_head s p in
      let rest = g.fat_length * s - length head in
      let h =
        fat_head-HeadFits s g.fat_length p (sector_some volume Valid byte at device vb g spans t o)
          (omega (arith, spans.fat_room, to)) in
      let (d, there) =
        put-Done volume Valid byte at device (fat_start g) head t o.valid
          (rw o.sector spans.fat_whole) (rw o.sector h.whole)
          (omega (arith, o.size, h.fits, spans.fat_inside)) (omega (arith, spans.fat_at)) in
      let o' = Keeps-On volume Valid byte at device vb g spans o d.keeps in
      let z =
        write_zeros-Done volume Valid byte at device rest rest d.next o'.valid (omega arith)
          (rw (o'.sector, there) (add_whole (fat_start g) (length head) s spans.fat_whole h.whole))
          (rw o'.sector (
            sub_whole (g.fat_length * s) (length head) s (mul_whole g.fat_length s) h.whole h.fits))
          (rw o'.sector (chunk_sectors volume Valid byte at device vb g spans))
          (omega (arith, there, o'.size, h.fits, spans.fat_inside))
          (omega (arith, there, spans.fat_at)) in
      record {
        next = z.next;
        returns = rw d.returns z.returns;
        keeps = Keeps-trans volume Valid byte at device d.keeps z.keeps;
      }
