-- ===== src/Layout/ExFat/Writer/Kept.antt =====
-- The writes of crates/burnout-layout/src/exfat/write.rs before the boot regions leave the first mebibyte of
-- the volume as it is.
use burnout.Prelude.{
  ℕ, zero, suc, ◌+◌, ◌-◌, ◌*◌, ◌%◌, ◌≤◌, ◌<◌, ◌≡◌, refl, ap, ◌∙◌, inl, inr, Bool-cases, min, List,
  [], ◌∷◌, length, replicate, set, arith, ◌==◌, ==→≢, mul_whole, add_whole, sub_whole, min_whole,
  div_ceil, length-append, length-replicate, length-set,
}
use burnout.Core.Error.{Result, ok}
use burnout.Core.Alignment.Rounding.{div_ceil_bounds}
use burnout.Core.Target.{Target}
use burnout.Core.Target.Device.{
  written_away, SameDevice, SameDevice-trans, IsDevice, write_all-WroteAll,
}
use burnout.Layout.Plan.{align}
use burnout.Layout.Stream.{chunk_bytes}
use burnout.Layout.WriteTable.{put}
use burnout.Layout.WriteTable.Erased.{put-Stored}
use burnout.Layout.ExFat.Place.{run_end, Placement}
use burnout.Layout.ExFat.Write.{media, end_of_chain, fat_entries, fat_bytes, fat_head}
use burnout.Layout.ExFat.Write.Fat.{length-link_run}
use burnout.Layout.ExFat.Writer.{write_zeros}
use burnout.Layout.ExFat.Writer.Spans.{ceil_within}

length-fat_bytes : (es : List ℕ) → length (fat_bytes es) ≡ length es * 4
unfolding fat_bytes
length-fat_bytes [] = refl
length-fat_bytes (e ∷ es) = omega (arith, length-fat_bytes es)

length-fat_entries : (p : Placement) → length (fat_entries p) ≡ run_end p.root
unfolding fat_entries
length-fat_entries p =
    let blank = replicate (run_end p.root) 0 in
    let heads = set (set blank 0 media) 1 end_of_chain in
    length-link_run p.root.clusters p.root.first _
    ∙ length-link_run p.upcase.clusters p.upcase.first _
    ∙ length-link_run p.bitmap.clusters p.bitmap.first heads
    ∙ length-set (set blank 0 media) 1 end_of_chain
    ∙ length-set blank 0 media
    ∙ length-replicate {A = ℕ} (run_end p.root) 0

-- The entries are whole sectors once they are padded, which the FAT has room for.
pub record HeadFits (sector : ℕ) (room : ℕ) (p : Placement) : Type 0 where
  pub whole : length (fat_head sector p) % sector ≡ 0
  pub fits : length (fat_head sector p) ≤ room * sector

pub fat_head-HeadFits :
    (sector room : ℕ) (p : Placement)
    → 0 < sector
    → run_end p.root * 4 ≤ room * sector
    → HeadFits sector room p
unfolding fat_head
fat_head-HeadFits sector room p pos h =
    let bytes = fat_bytes (fat_entries p) in
    let n = length bytes in
    let size : n ≡ run_end p.root * 4 =
      length-fat_bytes (fat_entries p) ∙ ap (λ (m : ℕ). m * 4) (length-fat_entries p) in
    let b = div_ceil_bounds n sector pos in
    let all : length (fat_head sector p) ≡ div_ceil n sector * sector =
      length-append bytes (replicate (div_ceil n sector * sector - n) 0)
      ∙ omega (arith, length-replicate {A = ℕ} (div_ceil n sector * sector - n) 0, b) in
    record {
      whole = rw all (mul_whole (div_ceil n sector) sector);
      fits = rw all (ceil_within n room sector pos (omega (arith, size, h)));
    }

module _ {T : Type 0} (volume : Target T) (Valid : T → Type 0) (byte : T → ℕ → ℕ) (at : T → ℕ)
    (device : IsDevice volume Valid byte at) where
  -- The device is the same, and so is its first mebibyte.
  pub record Keeps (t t' : T) : Type 0 where
    pub same : SameDevice volume Valid t t'
    pub kept : (a : ℕ) → a < align → byte t' a ≡ byte t a

  pub Keeps-refl : (t : T) → Valid t → Keeps t t
  Keeps-refl t v = record {
    same = record { valid = v; sector = refl; size = refl };
    kept = λ a h. refl;
  }

  pub Keeps-trans : {r s t : T} → Keeps r s → Keeps s t → Keeps r t
  Keeps-trans x y = record {
    same = SameDevice-trans volume Valid x.same y.same;
    kept = λ a h. y.kept a h ∙ x.kept a h;
  }

  -- A call that answers, and keeps the first mebibyte.
  pub record Done (t : T) (r : Result (Unit {0}) × T) : Type 0 where
    pub next : T
    pub returns : r ≡ (ok tt, next)
    pub keeps : Keeps t next

  pub put-Done :
      (to : ℕ) (bytes : List ℕ) (t : T)
      → Valid t
      → to % volume.logical_sector_size t ≡ 0
      → length bytes % volume.logical_sector_size t ≡ 0
      → to + length bytes ≤ volume.size t
      → align ≤ to
      → (d : Done t (put volume to bytes t)) × (at d.next ≡ to + length bytes)
  put-Done to bytes t v p q r past =
      let s = put-Stored volume Valid byte at device to bytes t v p q r in
      (
        record {
          next = s.next;
          returns = s.returns;
          keeps = record {
            same = s.same;
            kept = λ a h.
                s.bytes_at a ∙ written_away (byte t) to bytes a (inl (omega (arith, h, past)));
          };
        },
        s.position,
      )

  pub write_zeros-Done :
      (fuel rest : ℕ) (t : T)
      → Valid t
      → rest ≤ fuel
      → at t % volume.logical_sector_size t ≡ 0
      → rest % volume.logical_sector_size t ≡ 0
      → chunk_bytes % volume.logical_sector_size t ≡ 0
      → at t + rest ≤ volume.size t
      → align ≤ at t
      → Done t (write_zeros volume fuel rest t)
  unfolding write_zeros
  write_zeros-Done zero rest t v f p q c r past = record {
    next = t;
    returns = refl;
    keeps = Keeps-refl t v;
  }
  write_zeros-Done (suc fuel) rest t v f p q c r past = elim (Bool-cases (rest == 0)) [
    | inl e ↦ record { next = t; returns = rw e refl; keeps = Keeps-refl t v }
    | inr e ↦
        let n = min rest chunk_bytes in
        let some_bytes = ==→≢ rest 0 e in
        let size : length (replicate {A = ℕ} n 0) ≡ n = length-replicate {A = ℕ} n 0 in
        let whole = min_whole rest chunk_bytes (volume.logical_sector_size t) q c in
        let w =
          write_all-WroteAll volume Valid byte at device (replicate n 0) t v p (rw size whole)
            (omega (arith, size, r)) in
        let rest_done =
          write_zeros-Done fuel (rest - n) w.next w.same.valid (omega (arith, some_bytes, f))
            (rw (w.same.sector, w.position, size)
              (add_whole (at t) n (volume.logical_sector_size t) p whole))
            (rw w.same.sector
              (sub_whole rest n (volume.logical_sector_size t) q whole (omega arith)))
            (rw w.same.sector c) (omega (arith, w.position, size, w.same.size, r))
            (omega (arith, w.position, past)) in
        record {
          next = rest_done.next;
          returns = rw e (rw w.returns rest_done.returns);
          keeps =
              Keeps-trans
                (record {
                  same = w.same;
                  kept = λ a h.
                      w.bytes a
                      ∙ written_away (byte t) (at t) (replicate n 0) a
                          (inl (omega (arith, h, past)));
                })
                rest_done.keeps;
        }
  ]
